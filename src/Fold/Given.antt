-- ===== src/Fold/Given.antt =====
-- The constants that the operators of two floats come to, and the instructions of the virtual machine
-- that parser.cpp chooses for operands that are not constant.
use gmqcc.Prelude.{
  ℕ, suc, ◌≡◌, refl, ap, Bool, true, false, not, ◌&&◌, ◌||◌, Option, none, some, if◌then◌else◌,
}
use gmqcc.Sfloat.{State}
use gmqcc.Vm.Opcodes.{
  Opcode, instr_add_f, instr_sub_f, instr_mul_f, instr_div_f, instr_bitor, instr_bitand, instr_or,
  instr_and, instr_lt, instr_gt, instr_eq_f, instr_ne_f,
}
use gmqcc.Vm.Step.{Floats, of_bool}
use gmqcc.Fold.{
  AstValue, Options, Folder, type_float, immvalue_float, fold_can_2, is_float, is_vector,
  float_value, constgen_float,
}
use gmqcc.Fold.Vectors.{Arithmetic, one, is_zero, int_or, int_and}
use gmqcc.Fold.Operators.{
  operand, Folded, imm_float, immediate_true, true_by, float_of, checked_float, op_add, op_sub,
  op_mul, mul_float,
}
use gmqcc.Fold.Logic.{of_test, op_div, op_bits, op_bor, op_band, op_andor, op_ltgt, op_cmp}
use gmqcc.Fold.Select.{
  Operator, fold_op_case, counted, op_id_add, op_id_sub, op_id_mul, op_id_div, op_id_bor,
  op_id_band, op_id_or, op_id_and, op_id_lt, op_id_gt, op_id_eq, op_id_ne,
}
use gmqcc.Fold.Pool.{IsPool, Extends_refl, constgen_float_value}
use gmqcc.Fold.Reports.{check_inexact_float-Extends}
use gmqcc.Fold.Kept.{check_except_float-Extends}

-- The instruction for two floats, for the four kinds of operators that have one.
abbrev pub arithmetic_instruction : Operator → Option Opcode
arithmetic_instruction op_id_add = some instr_add_f
arithmetic_instruction op_id_sub = some instr_sub_f
arithmetic_instruction op_id_mul = some instr_mul_f
arithmetic_instruction op_id_div = some instr_div_f
arithmetic_instruction other = none

abbrev pub bit_instruction : Operator → Option Opcode
bit_instruction op_id_bor = some instr_bitor
bit_instruction op_id_band = some instr_bitand
bit_instruction other = none

abbrev pub logic_instruction : Operator → Option Opcode
logic_instruction op_id_or = some instr_or
logic_instruction op_id_and = some instr_and
logic_instruction other = none

abbrev pub comparison_instruction : Operator → Option Opcode
comparison_instruction op_id_gt = some instr_gt
comparison_instruction op_id_lt = some instr_lt
comparison_instruction op_id_ne = some instr_ne_f
comparison_instruction op_id_eq = some instr_eq_f
comparison_instruction other = none

abbrev either_of : Option Opcode → Option Opcode → Option Opcode
either_of none j = j
either_of (some i) j = some i

unfoldable pub instruction : Operator → Option Opcode
instruction id =
    either_of (arithmetic_instruction id) (
      either_of (bit_instruction id) (either_of (logic_instruction id) (comparison_instruction id)))

-- The fold returns a float constant with this word.
pub record Gives (r : Folded) (w : ℕ) : Type 0 where
  pub state : Folder
  pub inexact : Bool
  pub result : r ≡ (state, some (operand (float_value w inexact)))

module _ {f : Folder} (m : Arithmetic) (o : Options) (pool : IsPool f) where
  float_of-Gives : (w : ℕ) (inexact : Bool) → Gives (float_of m o w inexact f) w
  unfolding float_of
  float_of-Gives w inexact =
      let (i, e) = constgen_float_value w inexact pool in
      record {
        state = (constgen_float w inexact f).0;
        inexact = i;
        result = ap (λ (v : AstValue). ((constgen_float w inexact f).0, some (operand v))) e;
      }

  imm_float-Gives : (b : Bool) → Gives (of_test m o b f) (of_bool b)
  unfolding imm_float
  imm_float-Gives true = record { state = f; inexact = false; result = rw pool.first.1 refl }
  imm_float-Gives false = record { state = f; inexact = false; result = rw pool.first.1 refl }

module _ {f : Folder} (m : Arithmetic) (o : Options) (pool : IsPool f) where
  checked_float-Gives : (w : ℕ) (soft : State × ℕ) → Gives (checked_float m o w soft f) w
  unfolding checked_float
  checked_float-Gives w soft =
      float_of-Gives m o (check_except_float-Extends m o (Extends_refl pool) soft.0).pool w _

-- What the operator comes to on two floats.
abbrev pub meaning : Floats → Operator → ℕ → ℕ → ℕ
meaning fl op_id_add a b = fl.add a b
meaning fl op_id_sub a b = fl.sub a b
meaning fl op_id_mul a b = fl.mul a b
meaning fl op_id_div a b = fl.div a b
meaning fl op_id_bor a b = int_or fl a b
meaning fl op_id_band a b = int_and fl a b
meaning fl op_id_or a b = of_bool (not (is_zero fl a) || not (is_zero fl b))
meaning fl op_id_and a b = of_bool (not (is_zero fl a) && not (is_zero fl b))
meaning fl op_id_lt a b = of_bool (fl.lt a b)
meaning fl op_id_gt a b = of_bool (fl.lt b a)
meaning fl op_id_eq a b = of_bool (fl.eq a b)
meaning fl op_id_ne a b = of_bool (not (fl.eq a b))
meaning fl other a b = 0

counted-Gives : (r : Folded) (w : ℕ) → Gives r w → Gives (counted r) w
counted-Gives r w g = record {
  state = record g.state { count_const_fold = suc g.state.count_const_fold };
  inexact = g.inexact;
  result = ap counted g.result;
}

module _ {f : Folder} (m : Arithmetic) (o : Options) (pool : IsPool f) (a b : AstValue)
    (float_a : a.vtype ≡ type_float) (float_b : b.vtype ≡ type_float)
    (can : fold_can_2 a b ≡ true) where
  is_float_a : is_float a.vtype ≡ true
  is_float_a = ap is_float float_a

  is_float_b : is_float b.vtype ≡ true
  is_float_b = ap is_float float_b

  is_vector_b : is_vector b.vtype ≡ false
  is_vector_b = ap is_vector float_b

  add-Gives : Gives (op_add m o a b f) (m.floats.add (immvalue_float a) (immvalue_float b))
  unfolding op_add
  add-Gives = rw (is_float_a, can) (checked_float-Gives m o pool _ _)

  sub-Gives : Gives (op_sub m o a b f) (m.floats.sub (immvalue_float a) (immvalue_float b))
  unfolding op_sub
  sub-Gives = rw (is_float_a, can) (checked_float-Gives m o pool _ _)

  mul-Gives : Gives (op_mul m o a b f) (m.floats.mul (immvalue_float a) (immvalue_float b))
  unfolding op_mul mul_float
  mul-Gives = rw (is_float_a, is_vector_b, can) (checked_float-Gives m o pool _ _)

  div-Gives : Gives (op_div m o a b f) (m.floats.div (immvalue_float a) (immvalue_float b))
  unfolding op_div
  div-Gives = rw (is_float_a, can) (checked_float-Gives m o pool _ _)

  bits-Gives :
      (g : ℕ → ℕ → ℕ) → Gives (op_bits m o g a b f) (g (immvalue_float a) (immvalue_float b))
  unfolding op_bits
  bits-Gives g = rw (is_float_a, can) (float_of-Gives m o pool _ _)

  ltgt-Gives :
      (lt : Bool)
      → Gives (op_ltgt m o lt a b f) (
          of_bool (
            if lt
            then m.floats.lt (immvalue_float a) (immvalue_float b)
            else m.floats.lt (immvalue_float b) (immvalue_float a)))
  unfolding op_ltgt
  ltgt-Gives true =
      rw can (imm_float-Gives m o (check_inexact_float-Extends o (Extends_refl pool) a b).pool _)
  ltgt-Gives false =
      rw can (imm_float-Gives m o (check_inexact_float-Extends o (Extends_refl pool) a b).pool _)

  cmp-Gives :
      (ne : Bool)
      → Gives (op_cmp m o ne a b f) (
          of_bool (
            if ne
            then not (m.floats.eq (immvalue_float a) (immvalue_float b))
            else m.floats.eq (immvalue_float a) (immvalue_float b)))
  unfolding op_cmp
  cmp-Gives ne =
      rw (can, is_float_a, is_float_b)
        (imm_float-Gives m o (check_inexact_float-Extends o (Extends_refl pool) a b).pool _)

  truth :
      (v : AstValue)
      → v.vtype ≡ type_float
      → immediate_true m o v f ≡ (f, not (is_zero m.floats (immvalue_float v)))
  unfolding immediate_true true_by
  truth v e = ap (λ t. true_by t m o v f) e

  either-Gives :
      (x y : Bool)
      → Gives
          (if not x then float_of m o one false f else float_of m o (of_bool y) false f)
          (of_bool (not x || y))
  either-Gives true y = float_of-Gives m o pool _ _
  either-Gives false y = float_of-Gives m o pool _ _

  both-Gives :
      (x y : Bool)
      → Gives
          (if not x then float_of m o (of_bool y) false f else float_of m o 0 false f)
          (of_bool (not x && y))
  both-Gives true y = float_of-Gives m o pool _ _
  both-Gives false y = float_of-Gives m o pool _ _

  andor-Gives :
      (expr : Bool)
      → o.perl_logic ≡ false
      → Gives (op_andor m o expr a b f) (
          of_bool (
            if expr
            then not (is_zero m.floats (immvalue_float a))
              || not (is_zero m.floats (immvalue_float b))
            else not (is_zero m.floats (immvalue_float a))
              && not (is_zero m.floats (immvalue_float b))))
  unfolding op_andor
  andor-Gives true p =
      rw (can, truth a float_a, truth b float_b)
        (simp p (either-Gives (is_zero m.floats (immvalue_float a)) _))
  andor-Gives false p =
      rw (can, truth a float_a, truth b float_b)
        (simp p (both-Gives (is_zero m.floats (immvalue_float a)) _))

  pub fold-Gives :
      (id : Operator) (i : Opcode)
      → instruction id ≡ some i
      → o.perl_logic ≡ false
      → Gives
          (fold_op_case m o id (some a) (some b) none f)
          (meaning m.floats id (immvalue_float a) (immvalue_float b))
  unfolding instruction fold_op_case op_bor op_band
  fold-Gives op_id_add i e p = counted-Gives _ _ add-Gives
  fold-Gives op_id_sub i e p = counted-Gives _ _ sub-Gives
  fold-Gives op_id_mul i e p = counted-Gives _ _ mul-Gives
  fold-Gives op_id_div i e p = counted-Gives _ _ div-Gives
  fold-Gives op_id_bor i e p = counted-Gives _ _ (bits-Gives _)
  fold-Gives op_id_band i e p = counted-Gives _ _ (bits-Gives _)
  fold-Gives op_id_or i e p = counted-Gives _ _ (andor-Gives true p)
  fold-Gives op_id_and i e p = counted-Gives _ _ (andor-Gives false p)
  fold-Gives op_id_lt i e p = counted-Gives _ _ (ltgt-Gives true)
  fold-Gives op_id_gt i e p = counted-Gives _ _ (ltgt-Gives false)
  fold-Gives op_id_eq i e p = counted-Gives _ _ (cmp-Gives false)
  fold-Gives op_id_ne i e p = counted-Gives _ _ (cmp-Gives true)
  fold-Gives other i e p = absurd (cc e)
