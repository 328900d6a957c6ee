-- ===== src/Fold/Select.antt =====
-- What calls the functions `op_*` of fold.cpp (`fold::op`), the choice of the branches of a condition
-- (`fold::cond`), and the binary operations that are left out (`fold::superfluous`, `fold::binary`).
use gmqcc.Prelude.{
  ℕ, suc, Bool, true, false, not, ◌&&◌, ◌||◌, Option, none, some, ltb, leb, ◌==◌, if◌then◌else◌,
}
use gmqcc.Vm.Opcodes.{
  Opcode, instr_div_f, instr_mul_f, instr_sub_f, instr_add_f, instr_mul_v, instr_sub_v, instr_add_v,
}
use gmqcc.Vm.Step.{Floats}
use gmqcc.Vm.Exec.{same_vector}
use gmqcc.Fold.{
  is_float, AstValue, immvalue_float, fold_can_1, Options, Folder, report, no_operands,
  unsupported_operator,
}
use gmqcc.Fold.Vectors.{Arithmetic, one, is_zero}
use gmqcc.Fold.Operators.{
  Expr, operand, binary_node, Folded, unfolded, op_neg, op_not, op_add, op_sub, op_mul,
}
use gmqcc.Fold.Logic.{
  op_div, op_mod, op_bor, op_band, op_xor, op_lshift, op_rshift, op_andor, op_tern, op_exp,
  op_lteqgt, op_ltgt, op_cmp, op_bnot, op_cross, op_length,
}

-- The operators that `fold::op` knows by their `opid`, and any other.
pub data Operator : Type 0 where
  op_id_neg op_id_not op_id_add op_id_sub op_id_mul op_id_div op_id_mod op_id_bor op_id_band
        op_id_xor op_id_lt op_id_gt op_id_lshift op_id_rshift op_id_or op_id_and op_id_tern
        op_id_exp op_id_lteqgt op_id_ne op_id_eq op_id_bnot op_id_cross op_id_length op_id_other :
      Operator

-- The fields of `oper_info` that are read.
pub record OperInfo : Type 0 where
  pub id : Operator
  pub operands : ℕ
  pub folds : Bool

-- A fold is counted.
abbrev pub counted : Folded → Folded
counted (f, none) = (f, none)
counted (f, some e) = (record f { count_const_fold = suc f.count_const_fold }, some e)

abbrev pub is_missing : {A : Type 0} → Option A → Bool
is_missing none = true
is_missing (some a) = false

-- The functions of one, two and three operands. A missing operand is not read.
abbrev pub with_1 : (AstValue → Folder → Folded) → Option AstValue → Folder → Folded
with_1 g none f = unfolded f
with_1 g (some a) f = counted (g a f)

abbrev pub with_2 :
    (AstValue → AstValue → Folder → Folded) → Option AstValue → Option AstValue → Folder → Folded
with_2 g a none f = unfolded f
with_2 g a (some b) f = with_1 (λ a'. g a' b) a f

abbrev pub with_3 :
    (AstValue → AstValue → AstValue → Folder → Folded)
    → Option AstValue
    → Option AstValue
    → Option AstValue
    → Folder
    → Folded
with_3 g a b none f = unfolded f
with_3 g a b (some c) f = with_2 (λ a' b'. g a' b' c) a b f

module _ (m : Arithmetic) (o : Options) where
  -- The switch on the operator.
  unfoldable pub fold_op_case :
      Operator → Option AstValue → Option AstValue → Option AstValue → Folder → Folded
  fold_op_case op_id_neg a b c f = with_1 (op_neg m o) a f
  fold_op_case op_id_not a b c f = with_1 (op_not m o) a f
  fold_op_case op_id_add a b c f = with_2 (op_add m o) a b f
  fold_op_case op_id_sub a b c f = with_2 (op_sub m o) a b f
  fold_op_case op_id_mul a b c f = with_2 (op_mul m o) a b f
  fold_op_case op_id_div a b c f = with_2 (op_div m o) a b f
  fold_op_case op_id_mod a b c f = with_2 (op_mod m o) a b f
  fold_op_case op_id_bor a b c f = with_2 (op_bor m o) a b f
  fold_op_case op_id_band a b c f = with_2 (op_band m o) a b f
  fold_op_case op_id_xor a b c f = with_2 (op_xor m o) a b f
  fold_op_case op_id_lt a b c f = with_2 (op_ltgt m o true) a b f
  fold_op_case op_id_gt a b c f = with_2 (op_ltgt m o false) a b f
  fold_op_case op_id_lshift a b c f = with_2 (op_lshift m o) a b f
  fold_op_case op_id_rshift a b c f = with_2 (op_rshift m o) a b f
  fold_op_case op_id_or a b c f = with_2 (op_andor m o true) a b f
  fold_op_case op_id_and a b c f = with_2 (op_andor m o false) a b f
  fold_op_case op_id_tern a b c f = with_3 (op_tern m o) a b c f
  fold_op_case op_id_exp a b c f = with_2 (op_exp m o) a b f
  fold_op_case op_id_lteqgt a b c f = with_2 (op_lteqgt m o) a b f
  fold_op_case op_id_ne a b c f = with_2 (op_cmp m o true) a b f
  fold_op_case op_id_eq a b c f = with_2 (op_cmp m o false) a b f
  fold_op_case op_id_bnot a b c f = with_1 (op_bnot m o) a f
  fold_op_case op_id_cross a b c f = with_2 (op_cross m o) a b f
  fold_op_case op_id_length a b c f = with_1 (op_length m o) a f
  fold_op_case op_id_other a b c f = unfolded (report unsupported_operator f)

  -- `fold::op`, with none for an operand that is a null pointer.
  unfoldable pub op :
      OperInfo → Option AstValue → Option AstValue → Option AstValue → Folder → Folded
  op info a b c f =
      if not info.folds
      then unfolded f
      else if info.operands == 3 && is_missing c
      then unfolded f
      else if (info.operands == 2 || info.operands == 3) && is_missing b
      then unfolded f
      else if ltb 0 info.operands && leb info.operands 3 && is_missing a
      then unfolded (report no_operands f)
      else fold_op_case info.id a b c f

-- The branches for which code is generated: ON_TRUE and ON_FALSE.
pub record Branches : Type 0 where
  pub on_true : Bool
  pub on_false : Bool

-- `fold::cond` on a condition and the branches that are there.
unfoldable pub cond : Floats → Options → AstValue → Branches → Branches
cond fl o condval branch =
    if not o.const_fold_dce
    then (record { on_true = true; on_false = true })
    else if not (is_float condval.vtype) || not (fold_can_1 condval)
    then (record { on_true = true; on_false = true })
    else if not (is_zero fl (immvalue_float condval)) && branch.on_true
    then (record { on_true = true; on_false = false })
    else if is_zero fl (immvalue_float condval) && branch.on_false
    then (record { on_true = false; on_false = true })
    else (record { on_true = false; on_false = false })

-- `fold_can_1` on the way to the IR, for a value.
abbrev pub can_fold : AstValue → Bool
can_fold v = v.is_value && v.hasvalue && v.is_const

-- The switch of `superfluous`: whether the operation with the constant `load` on the right, or on the
-- left if `swapped`, does nothing.
abbrev pub does_nothing : Floats → Opcode → Bool → AstValue → Bool
does_nothing fl instr_div_f swapped load = not swapped && fl.eq (immvalue_float load) one
does_nothing fl instr_mul_f swapped load = fl.eq (immvalue_float load) one
does_nothing fl instr_sub_f swapped load = not swapped && fl.eq (immvalue_float load) 0
does_nothing fl instr_add_f swapped load = fl.eq (immvalue_float load) 0
does_nothing fl instr_mul_v swapped load = same_vector fl load.vvec (one, one, one)
does_nothing fl instr_sub_v swapped load = not swapped && same_vector fl load.vvec (0, 0, 0)
does_nothing fl instr_add_v swapped load = same_vector fl load.vvec (0, 0, 0)
does_nothing fl other swapped load = false

unfoldable pub superfluous : Floats → AstValue → AstValue → Opcode → Option AstValue
superfluous fl left right op' =
    if can_fold right
    then (if does_nothing fl op' false right then some left else none)
    else if can_fold left
    then (if does_nothing fl op' true left then some right else none)
    else none

abbrev pub kept_or_new : Opcode → AstValue → AstValue → Option AstValue → Expr
kept_or_new op' left right none = binary_node op' (operand left) (operand right)
kept_or_new op' left right (some e) = operand e

-- `fold::binary`
unfoldable pub binary : Floats → Opcode → AstValue → AstValue → Expr
binary fl op' left right = kept_or_new op' left right (superfluous fl left right op')
