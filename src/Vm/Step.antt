-- ===== src/Vm/Step.antt =====
-- One turn of the loop of exec.cpp that `prog_exec` includes, from the switch on. The pointer `st`
-- is the index of its statement. A write through a pointer to the globals happens before the next
-- read, so operands that overlap are read as the code reads them.
use gmqcc.Prelude.{
  ℕ, zero, suc, ◌+◌, ◌%◌, ◌^◌, Bool, true, false, not, ◌&&◌, List, [], ◌∷◌, Option, some, ◌==◌,
  if◌then◌else◌, get_elem?,
}
use gmqcc.Vm.State.{Vm, Statement, error_once}
use gmqcc.Vm.Words.{◌>>=◌, write?}
use gmqcc.Vm.Strings.{get_string}
use gmqcc.Vm.Frames.{copy_words}

-- The float operations of the machine that runs the code, on the bits of `float`s. `plus_tenth` is
-- the sum with the double 0.1, `of_int` and `to_int` are the conversions from and to `int`.
pub record Floats : Type 0 where
  pub add : ℕ → ℕ → ℕ
  pub sub : ℕ → ℕ → ℕ
  pub mul : ℕ → ℕ → ℕ
  pub div : ℕ → ℕ → ℕ
  pub eq : ℕ → ℕ → Bool
  pub lt : ℕ → ℕ → Bool
  pub le : ℕ → ℕ → Bool
  pub plus_tenth : ℕ → ℕ
  pub of_int : ℕ → ℕ
  pub to_int : ℕ → ℕ

-- `prog->builtins`: no entry is a null pointer or a number past the end.
abbrev pub Builtins : Type 0
Builtins = ℕ → Option (Vm → Option Vm)

-- The state of the loop: the statement that is executed, and the jumps so far.
pub record Machine : Type 0 where
  pub vm : Vm
  pub pc : ℕ
  pub jumps : ℕ

-- What a turn comes to: the next statement, or `goto cleanup`.
pub data Outcome : Type 0 where
  next : Machine → Outcome
  cleanup : Vm → Outcome

abbrev pub advance : Machine → Vm → Option Outcome
advance m vm = some (next (record m { vm = vm; pc = suc m.pc }))

-- `qcvmerror` and `goto cleanup`.
abbrev pub fail_with : Machine → Option Outcome
fail_with m = some (cleanup (error_once m.vm))

-- `OPC->_float = b`: the bits of 1.0f and of 0.0f.
abbrev pub of_bool : Bool → ℕ
of_bool b = if b then 0x3f80_0000 else 0

-- FLOAT_IS_TRUE_FOR_INT
abbrev pub is_true : ℕ → Bool
is_true w = not (w % 2 ^ 31 == 0)

-- `*(OPC) = w` for one word, and on to the next statement.
unfoldable pub put_c : Machine → Statement → ℕ → Option Outcome
put_c m st w = do g ← write? m.vm.globals st.o3 w; advance m (record m.vm { globals = g })

unfoldable pub unary : (ℕ → ℕ) → Machine → Statement → Option Outcome
unfolding put_c
unary f m st = do a ← get_elem? m.vm.globals st.o1; put_c m st (f a)

unfoldable pub binary : (ℕ → ℕ → ℕ) → Machine → Statement → Option Outcome
unfolding put_c
binary f m st = do
  a ← get_elem? m.vm.globals st.o1
  b ← get_elem? m.vm.globals st.o2
  put_c m st (f a b)

-- Both strings are looked up, and compared by `strcmp`.
unfoldable pub same_bytes : List ℕ → List ℕ → Bool
same_bytes [] [] = true
same_bytes [] (b ∷ bs) = false
same_bytes (a ∷ as') [] = false
same_bytes (a ∷ as') (b ∷ bs) = a == b && same_bytes as' bs

unfoldable pub compare_strings : (Bool → Bool) → Machine → Statement → Option Outcome
unfolding put_c
compare_strings f m st = do
  a ← get_elem? m.vm.globals st.o1
  b ← get_elem? m.vm.globals st.o2
  s ← get_string a m.vm
  t ← get_string b m.vm
  put_c m st (of_bool (f (same_bytes s t)))

-- Three words of the globals from `i` on.
unfoldable pub vector_at : List ℕ → ℕ → Option (ℕ × ℕ × ℕ)
vector_at g i = do
  x ← get_elem? g i
  y ← get_elem? g (i + 1)
  z ← get_elem? g (i + 2)
  some (x, y, z)

-- A result of one word from two vectors.
unfoldable pub from_vectors : (ℕ × ℕ × ℕ → ℕ × ℕ × ℕ → ℕ) → Machine → Statement → Option Outcome
unfolding vector_at put_c
from_vectors f m st = do
  a ← vector_at m.vm.globals st.o1
  b ← vector_at m.vm.globals st.o2
  put_c m st (f a b)

-- `OPC->vector[i] = f(OPA->vector[i], OPB->vector[i])` for `n` values of `i`, from these places on.
unfoldable pub each_word : ℕ → (ℕ → ℕ → ℕ) → ℕ → ℕ → ℕ → List ℕ → Option (List ℕ)
each_word zero f a b c g = some g
each_word (suc n) f a b c g = do
  x ← get_elem? g a
  y ← get_elem? g b
  g' ← write? g c (f x y)
  each_word n f (suc a) (suc b) (suc c) g'

unfoldable pub to_vector : (ℕ → ℕ → ℕ) → Machine → Statement → Option Outcome
unfolding each_word
to_vector f m st = do
  g ← each_word 3 f st.o1 st.o2 st.o3 m.vm.globals
  advance m (record m.vm { globals = g })

-- `OPC->vector[i] = f(w, vector[i])` for a word `w` that was read before, and the vector at `src`.
unfoldable pub scale : ℕ → (ℕ → ℕ → ℕ) → ℕ → ℕ → ℕ → List ℕ → Option (List ℕ)
scale zero f w src c g = some g
scale (suc n) f w src c g = do
  x ← get_elem? g src
  g' ← write? g c (f w x)
  scale n f w (suc src) (suc c) g'

unfoldable pub scale_vector : (ℕ → ℕ → ℕ) → ℕ → ℕ → Machine → Statement → Option Outcome
unfolding scale
scale_vector f factor src m st = do
  w ← get_elem? m.vm.globals factor
  g ← scale 3 f w src st.o3 m.vm.globals
  advance m (record m.vm { globals = g })

-- INSTR_STORE_*: `n` words of OPA go to OPB.
unfoldable pub store_words : ℕ → Machine → Statement → Option Outcome
store_words n m st = do
  g ← copy_words n st.o1 st.o2 m.vm.globals
  advance m (record m.vm { globals = g })
