-- ===== src/Code/Statements.antt =====
-- `code_push_statement` and `code_pop_statement` of code.cpp. The operands are the `u1` of their
-- unions, as the virtual machine reads them.
pub mod Sorted
pub mod Stack
use gmqcc.Prelude.{
  ℕ, zero, suc, Bool, true, false, ◌&&◌, ◌||◌, List, [], ◌∷◌, ◌++◌, Option, none, some, ltb, ◌==◌,
  if◌then◌else◌,
}
use gmqcc.Vm.State.{Statement}
use gmqcc.Vm.Words.{◌>>=◌}

-- Numbers of the enumeration of gmqcc.h.
abbrev pub mul_fv : ℕ
mul_fv = 3

abbrev pub mul_vf : ℕ
mul_vf = 4

abbrev pub add_f : ℕ
add_f = 6

abbrev pub le : ℕ
le = 20

abbrev pub ge : ℕ
ge = 21

abbrev pub lt : ℕ
lt = 22

abbrev pub gt : ℕ
gt = 23

abbrev pub load_f : ℕ
load_f = 24

abbrev pub store_f : ℕ
store_f = 31

abbrev pub storep_f : ℕ
storep_f = 37

-- The case labels of a group.
abbrev pub one_of : ℕ → List ℕ → Bool
one_of n [] = false
one_of n (k ∷ ks) = n == k || one_of n ks

-- LOAD_S, LOAD_ENT, LOAD_FLD, LOAD_FNC
abbrev pub loads : List ℕ
loads = 26 ∷ 27 ∷ 28 ∷ 29 ∷ []

-- STORE_S, STORE_ENT, STORE_FLD, STORE_FNC
abbrev pub stores : List ℕ
stores = 33 ∷ 34 ∷ 35 ∷ 36 ∷ []

-- STOREP_S, STOREP_ENT, STOREP_FLD, STOREP_FNC
abbrev pub storeps : List ℕ
storeps = 39 ∷ 40 ∷ 41 ∷ 42 ∷ []

-- MUL_F, MUL_V, ADD_F, EQ_F, EQ_S, EQ_E, EQ_FNC, NE_F, NE_V, NE_S, NE_E, NE_FNC, AND, OR, BITAND,
-- BITOR
abbrev pub commutative : List ℕ
commutative = 1 ∷ 2 ∷ 6 ∷ 10 ∷ 12 ∷ 13 ∷ 14 ∷ 15 ∷ 16 ∷ 17 ∷ 18 ∷ 19 ∷ 62 ∷ 63 ∷ 64 ∷ 65 ∷ []

-- The switch under TYPELESS_STORES.
unfoldable pub typeless : ℕ → ℕ
typeless n =
    if one_of n loads
    then load_f
    else if one_of n stores
    then store_f
    else if one_of n storeps
    then storep_f
    else n

-- The instruction `pair` of the switch under SORT_OPERANDS.
unfoldable pub pair_of : ℕ → Option ℕ
pair_of n =
    if n == mul_vf
    then some mul_fv
    else if n == mul_fv
    then some mul_vf
    else if n == lt
    then some gt
    else if n == gt
    then some lt
    else if n == le
    then some ge
    else if n == ge
    then some le
    else none

-- The label `case_pair_gen`.
unfoldable pub swap_pair : Option ℕ → Statement → Statement
swap_pair none st = st
swap_pair (some pair) st =
    if ltb st.o1 st.o2 then record st { opcode = pair; o1 = st.o2; o2 = st.o1 } else st

-- The switch under SORT_OPERANDS. In the first group the variable for the swap holds o2.
unfoldable pub sorted_statement : Statement → Statement
unfolding pair_of swap_pair
sorted_statement st =
    if one_of st.opcode commutative
    then (if ltb st.o1 st.o2 then record st { o1 = st.o2; o2 = st.o2 } else st)
    else swap_pair (pair_of st.opcode) st

-- The flags of the compiler, and the vectors of `code_t` that statements go to. The last statement
-- is the last of the list.
pub record Flags : Type 0 where
  pub typeless_stores : Bool
  pub sort_operands : Bool

pub record Context : Type 0 where
  pub line : ℕ
  pub column : ℕ

pub record Statements : Type 0 where
  pub statements : List Statement
  pub linenums : List ℕ
  pub columnnums : List ℕ

unfoldable pub rewrite_statement : Flags → Statement → Statement
unfolding typeless sorted_statement
rewrite_statement flags stmt_in =
    let stmt : Statement =
      if flags.typeless_stores
      then record stmt_in { opcode = typeless stmt_in.opcode }
      else stmt_in in
    if flags.sort_operands then sorted_statement stmt else stmt

unfoldable pub push_statement : Flags → Statement → Context → Statements → Statements
unfolding rewrite_statement
push_statement flags stmt_in ctx code = record {
  statements = code.statements ++ rewrite_statement flags stmt_in ∷ [];
  linenums = code.linenums ++ ctx.line ∷ [];
  columnnums = code.columnnums ++ ctx.column ∷ [];
}

-- `pop_back`, which has no defined behaviour on an empty vector.
unfoldable pub pop_back : {A : Type 0} → List A → Option (List A)
pop_back [] = none
pop_back (x ∷ []) = some []
pop_back (x ∷ y ∷ ys) = pop_back (y ∷ ys) >>= λ rest. some (x ∷ rest)

unfoldable pub pop_statement : Statements → Option Statements
unfolding pop_back
pop_statement code = do
  statements ← pop_back code.statements
  linenums ← pop_back code.linenums
  columnnums ← pop_back code.columnnums
  some (record { statements = statements; linenums = linenums; columnnums = columnnums })
