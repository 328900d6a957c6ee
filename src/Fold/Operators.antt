-- ===== src/Fold/Operators.antt =====
-- The functions `op_*` of fold.cpp, which fold an operator whose operands are constants. Each returns
-- the state and an expression, or none for the null pointer.
use gmqcc.Prelude.{
  ℕ, suc, Bool, true, false, not, ◌&&◌, ◌||◌, List, [], ◌∷◌, Option, none, some, ◌==◌,
  if◌then◌else◌, get_elem?,
}
use gmqcc.Vm.Opcodes.{Opcode, instr_mul_f}
use gmqcc.Vm.Step.{of_bool}
use gmqcc.Vm.Exec.{dot}
use gmqcc.Sfloat.{State}
use gmqcc.Sfloat.Arith.{sfloat_add, sfloat_sub, sfloat_mul, sfloat_neg}
use gmqcc.Fold.{
  ValueType, type_float, type_integer, type_vector, type_string, is_float, is_vector, is_string,
  AstValue, immvalue_float, fold_can_1, fold_can_2, Options, Folder, report,
  immediate_true_on_invalid_type, constgen_float, constgen_vector,
}
use gmqcc.Fold.Vectors.{Arithmetic, Vec3, minus_one, each, is_zero, vec3_notf, vec3_pbool}
use gmqcc.Fold.Except.{
  initial, vec3_check_except, neg_checks, mulvv_checks, mulvf_checks, check_except_float,
}

-- An operand, a new `ast_binary`, or a component of an operand by a new `ast_member`.
pub data Expr : Type 0 where
  operand : AstValue → Expr
  binary_node : Opcode → Expr → Expr → Expr
  member_node : AstValue → ℕ → Expr

abbrev pub Folded : Type 0
Folded = Folder × Option Expr

abbrev pub unfolded : Folder → Folded
unfolded f = (f, none)

abbrev pub entered : Folder × AstValue → Folded
entered r = (r.0, some (operand r.1))

abbrev pub at_place : Option AstValue → Folder → Folded
at_place none f = (f, none)
at_place (some v) f = (f, some (operand v))

-- `m_imm_float[i]`
unfoldable pub imm_float : ℕ → Folder → Folded
imm_float i f = at_place (get_elem? f.imm_float i) f

-- A text: the null pointer is taken as no text.
abbrev pub bytes_of : Option (List ℕ) → List ℕ
bytes_of none = []
bytes_of (some s) = s

abbrev pub is_null : Option (List ℕ) → Bool
is_null none = true
is_null (some s) = false

abbrev pub no_bytes : List ℕ → Bool
no_bytes [] = true
no_bytes (c ∷ s) = false

-- `immediate_true` on the type.
unfoldable pub true_by : ValueType → Arithmetic → Options → AstValue → Folder → Folder × Bool
true_by type_float m o v f = (f, not (is_zero m.floats (immvalue_float v)))
true_by type_integer m o v f = (f, not (v.pointer == 0))
true_by type_vector m o v f =
    (f, if o.correct_logic then vec3_pbool m.floats v.vvec else not (is_zero m.floats v.vvec.0))
true_by type_string m o v f = (
  f,
  if is_null v.vstring
      then false
      else if o.true_empty_strings
      then true
      else not (no_bytes (bytes_of v.vstring)),
)
true_by other m o v f = (report immediate_true_on_invalid_type f, not (v.pointer == 0))

module _ (m : Arithmetic) (o : Options) where
  unfoldable pub immediate_true : AstValue → Folder → Folder × Bool
  immediate_true v f = true_by v.vtype m o v f

  unfoldable pub float_of : ℕ → Bool → Folder → Folded
  float_of value inexact f = entered (constgen_float value inexact f)

  unfoldable pub vector_of : Vec3 → Folder → Folded
  vector_of value f = entered (constgen_vector m.floats value f)

  -- A float from the float operation, with what the software float finds.
  unfoldable pub checked_float : ℕ → State × ℕ → Folder → Folded
  checked_float value soft f =
      let checked = check_except_float o soft.0 f in float_of value checked.1 checked.0

  unfoldable pub op_neg : AstValue → Folder → Folded
  op_neg a f =
      if is_float a.vtype && fold_can_1 a
      then checked_float (m.negate (immvalue_float a)) (sfloat_neg initial (immvalue_float a)) f
      else if is_vector a.vtype && fold_can_1 a
      then vector_of (m.negate a.vvec.0, m.negate a.vvec.1, m.negate a.vvec.2)
          (neg_checks o a.vvec f)
      else unfolded f

  unfoldable pub op_not : AstValue → Folder → Folded
  op_not a f =
      if is_float a.vtype && fold_can_1 a
      then float_of (of_bool (is_zero m.floats (immvalue_float a))) false f
      else if is_vector a.vtype && fold_can_1 a
      then float_of (of_bool (vec3_notf m.floats a.vvec)) false f
      else if is_string a.vtype && fold_can_1 a
      then float_of
          (of_bool (is_null a.vstring || not o.true_empty_strings && no_bytes (bytes_of a.vstring)))
          false f
      else unfolded f

  unfoldable pub op_add : AstValue → AstValue → Folder → Folded
  op_add a b f =
      if is_float a.vtype && fold_can_2 a b
      then checked_float (m.floats.add (immvalue_float a) (immvalue_float b))
          (sfloat_add initial (immvalue_float a) (immvalue_float b)) f
      else if is_vector a.vtype && fold_can_2 a b
      then vector_of (each m.floats.add a.vvec b.vvec)
          (vec3_check_except o sfloat_add a.vvec b.vvec f)
      else unfolded f

  unfoldable pub op_sub : AstValue → AstValue → Folder → Folded
  op_sub a b f =
      if is_float a.vtype && fold_can_2 a b
      then checked_float (m.floats.sub (immvalue_float a) (immvalue_float b))
          (sfloat_sub initial (immvalue_float a) (immvalue_float b)) f
      else if is_vector a.vtype && fold_can_2 a b
      then vector_of (each m.floats.sub a.vvec b.vvec)
          (vec3_check_except o sfloat_sub a.vvec b.vvec f)
      else unfolded f

  -- The places of the components that `set` names.
  abbrev pub component : ℕ → Vec3 → ℕ
  component i v = if i == 0 then v.0 else if i == 1 then v.1 else v.2

  -- `op_mul_vec`: `set` is the three places instead of their letters.
  unfoldable pub op_mul_vec : Vec3 → AstValue → Vec3 → Folder → Folded
  op_mul_vec vec sel set f =
      let value = component set.0 vec in
      let counted = record f { count_vector_components = suc f.count_vector_components } in
      let factor = constgen_float value false counted in
      if is_zero m.floats (component set.1 vec) && is_zero m.floats (component set.2 vec)
      then (if m.floats.eq value minus_one then unfolded counted else (
        factor.0,
        some (binary_node instr_mul_f (operand factor.1) (member_node sel set.0)),
      ))
      else unfolded f

  -- The first of the two attempts that folds.
  abbrev pub or_else : Folded → (Folder → Folded) → Folded
  or_else (f, some e) next = (f, some e)
  or_else (f, none) next = next f

  unfoldable pub mul_components : Vec3 → AstValue → Folder → Folded
  mul_components vec sel f =
      or_else (or_else (op_mul_vec vec sel (0, 1, 2) f) (op_mul_vec vec sel (1, 0, 2)))
        (op_mul_vec vec sel (2, 0, 1))

  unfoldable pub scaled : AstValue → AstValue → Folder → Folded
  scaled v w f =
      vector_of
        (
          m.floats.mul v.vvec.0 (immvalue_float w),
          m.floats.mul v.vvec.1 (immvalue_float w),
          m.floats.mul v.vvec.2 (immvalue_float w),
        )
        (mulvf_checks o v.vvec (immvalue_float w) f)

  unfoldable pub mul_float : AstValue → AstValue → Folder → Folded
  mul_float a b f =
      if not (fold_can_2 a b)
      then unfolded f
      else if is_vector b.vtype
      then scaled b a f
      else checked_float (m.floats.mul (immvalue_float a) (immvalue_float b))
          (sfloat_mul initial (immvalue_float a) (immvalue_float b)) f

  unfoldable pub mul_vector : AstValue → AstValue → Folder → Folded
  mul_vector a b f =
      if is_float b.vtype
      then (if fold_can_2 a b then scaled a b f else unfolded f)
      else if fold_can_2 a b
      then float_of (dot m.floats a.vvec b.vvec) false (mulvv_checks o a.vvec b.vvec f)
      else if o.vector_components && fold_can_1 a
      then mul_components a.vvec b f
      else if o.vector_components && fold_can_1 b
      then mul_components b.vvec a f
      else unfolded f

  unfoldable pub op_mul : AstValue → AstValue → Folder → Folded
  op_mul a b f =
      if is_float a.vtype
      then mul_float a b f
      else if is_vector a.vtype
      then mul_vector a b f
      else unfolded f
