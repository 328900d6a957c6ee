-- ===== src/Fold/Logic.antt =====
-- The rest of the functions `op_*` of fold.cpp: division, operators on bits, comparisons and logic.
use gmqcc.Prelude.{ℕ, Bool, false, not, ◌&&◌, none, some, if◌then◌else◌, length}
use gmqcc.Vm.Opcodes.{Opcode, instr_mul_f, instr_mul_vf, instr_div_f}
use gmqcc.Vm.Step.{of_bool, same_bytes}
use gmqcc.Vm.Exec.{same_vector}
use gmqcc.Sfloat.Arith.{sfloat_div}
use gmqcc.Fold.{
  is_float, is_vector, is_string, is_array, AstValue, immvalue_float, fold_can_1, fold_can_2,
  Options, Folder, constgen_float,
}
use gmqcc.Fold.Vectors.{
  Arithmetic, one, minus_one, two, each, int_or, int_and, int_xor, vec3_not, cross,
}
use gmqcc.Fold.Except.{initial, mulvf_checks, cross_checks, check_inexact_float}
use gmqcc.Fold.Operators.{
  operand, binary_node, Folded, unfolded, imm_float, bytes_of, immediate_true, float_of, vector_of,
  checked_float,
}

module _ (m : Arithmetic) (o : Options) where
  -- `1.0f / immvalue_float(b)`
  abbrev reciprocal : AstValue → ℕ
  reciprocal b = m.floats.div one (immvalue_float b)

  abbrev pub as_binary : Opcode → AstValue → Folder × AstValue → Folded
  as_binary op a r = (r.0, some (binary_node op (operand a) (operand r.1)))

  -- A division by a value that is not constant, with `m_imm_float[1]`.
  abbrev pub div_node : AstValue → AstValue → Folded → Folded
  div_node a b (f, none) = (f, none)
  div_node a b (f, some e) =
      (f, some (binary_node instr_mul_vf (operand a) (binary_node instr_div_f e (operand b))))

  unfoldable pub op_div : AstValue → AstValue → Folder → Folded
  op_div a b f =
      if is_float a.vtype
      then (if fold_can_2 a b
          then checked_float m o (m.floats.div (immvalue_float a) (immvalue_float b))
              (sfloat_div initial (immvalue_float a) (immvalue_float b)) f
          else if fold_can_1 b
          then as_binary instr_mul_f a (constgen_float (reciprocal b) false f)
          else unfolded f)
      else if is_vector a.vtype
      then (if fold_can_2 a b
          then vector_of m o
              (
                m.floats.mul a.vvec.0 (reciprocal b),
                m.floats.mul a.vvec.1 (reciprocal b),
                m.floats.mul a.vvec.2 (reciprocal b),
              )
              (mulvf_checks o a.vvec (reciprocal b) f)
          else if fold_can_1 b
          then as_binary instr_mul_vf a (constgen_float (reciprocal b) false f)
          else div_node a b (imm_float 1 f))
      else unfolded f

  unfoldable pub op_mod : AstValue → AstValue → Folder → Folded
  op_mod a b f =
      if fold_can_2 a b
      then float_of m o (m.fmod (immvalue_float a) (immvalue_float b)) false f
      else unfolded f

  -- `op_bor`, `op_band` and `op_xor` with their operation on two floats.
  unfoldable pub op_bits : (ℕ → ℕ → ℕ) → AstValue → AstValue → Folder → Folded
  op_bits op a b f =
      if not (fold_can_2 a b)
      then unfolded f
      else if is_float a.vtype
      then float_of m o (op (immvalue_float a) (immvalue_float b)) false f
      else if is_vector b.vtype
      then vector_of m o (each op a.vvec b.vvec) f
      else vector_of m o
          (
            op a.vvec.0 (immvalue_float b),
            op a.vvec.1 (immvalue_float b),
            op a.vvec.2 (immvalue_float b),
          )
          f

  unfoldable pub op_bor : AstValue → AstValue → Folder → Folded
  op_bor a b f = op_bits (int_or m.floats) a b f

  unfoldable pub op_band : AstValue → AstValue → Folder → Folded
  op_band a b f = op_bits (int_and m.floats) a b f

  unfoldable pub op_xor : AstValue → AstValue → Folder → Folded
  op_xor a b f = op_bits (int_xor m.floats) a b f

  -- `op_lshift` and `op_rshift`, which multiply and divide by a power of two.
  unfoldable pub op_shift : (ℕ → ℕ → ℕ) → AstValue → AstValue → Folder → Folded
  op_shift op a b f =
      if fold_can_2 a b && is_float a.vtype && is_float b.vtype
      then float_of m o (m.floorf (op (immvalue_float a) (m.powf two (immvalue_float b)))) false f
      else unfolded f

  unfoldable pub op_lshift : AstValue → AstValue → Folder → Folded
  op_lshift a b f = op_shift m.floats.mul a b f

  unfoldable pub op_rshift : AstValue → AstValue → Folder → Folded
  op_rshift a b f = op_shift m.floats.div a b f

  abbrev choice : Bool → AstValue → AstValue → Folder → Folded
  choice t a b f = (f, some (operand (if t then a else b)))

  -- `op_andor`: `||` if `expr` is true, and `&&` else.
  unfoldable pub op_andor : Bool → AstValue → AstValue → Folder → Folded
  op_andor expr a b f =
      let first = immediate_true m o a f in
      let second = immediate_true m o b first.0 in
      if not (fold_can_2 a b)
      then unfolded f
      else if o.perl_logic
      then (if expr then choice first.1 a b first.0 else choice first.1 b a first.0)
      else if expr
      then (if first.1
          then float_of m o one false first.0
          else float_of m o (of_bool second.1) false second.0)
      else if first.1
      then float_of m o (of_bool second.1) false second.0
      else float_of m o 0 false first.0

  unfoldable pub op_tern : AstValue → AstValue → AstValue → Folder → Folded
  op_tern a b c f =
      let test = immediate_true m o a f in
      if fold_can_1 a then choice test.1 b c test.0 else unfolded f

  unfoldable pub op_exp : AstValue → AstValue → Folder → Folded
  op_exp a b f =
      if fold_can_2 a b
      then float_of m o (m.powf (immvalue_float a) (immvalue_float b)) false f
      else unfolded f

  unfoldable pub op_lteqgt : AstValue → AstValue → Folder → Folded
  op_lteqgt a b f =
      let f' = check_inexact_float o a b f in
      if not (fold_can_2 a b)
      then unfolded f
      else if m.floats.lt (immvalue_float a) (immvalue_float b)
      then imm_float 2 f'
      else if m.floats.eq (immvalue_float a) (immvalue_float b)
      then imm_float 0 f'
      else if m.floats.lt (immvalue_float b) (immvalue_float a)
      then imm_float 1 f'
      else unfolded f'

  -- `m_imm_float[b]`
  abbrev pub of_test : Bool → Folder → Folded
  of_test b f = imm_float (if b then 1 else 0) f

  unfoldable pub op_ltgt : Bool → AstValue → AstValue → Folder → Folded
  op_ltgt lt a b f =
      let f' = check_inexact_float o a b f in
      if not (fold_can_2 a b)
      then unfolded f
      else if lt
      then of_test (m.floats.lt (immvalue_float a) (immvalue_float b)) f'
      else of_test (m.floats.lt (immvalue_float b) (immvalue_float a)) f'

  abbrev negated : Bool → Bool → Bool
  negated ne compare = if ne then not compare else compare

  unfoldable pub op_cmp : Bool → AstValue → AstValue → Folder → Folded
  op_cmp ne a b f =
      if not (fold_can_2 a b)
      then unfolded f
      else if is_float a.vtype && is_float b.vtype
      then of_test (negated ne (m.floats.eq (immvalue_float a) (immvalue_float b)))
          (check_inexact_float o a b f)
      else if is_vector a.vtype && is_vector b.vtype
      then of_test (negated ne (same_vector m.floats a.vvec b.vvec)) f
      else if is_string a.vtype && is_string b.vtype
      then of_test (negated ne (same_bytes (bytes_of a.vstring) (bytes_of b.vstring))) f
      else unfolded f

  unfoldable pub op_bnot : AstValue → Folder → Folded
  op_bnot a f =
      if is_float a.vtype && fold_can_1 a
      then float_of m o (m.floats.sub minus_one (immvalue_float a)) false f
      else if is_vector a.vtype && fold_can_1 a
      then vector_of m o (vec3_not m.floats a.vvec) f
      else unfolded f

  unfoldable pub op_cross : AstValue → AstValue → Folder → Folded
  op_cross a b f =
      if fold_can_2 a b
      then vector_of m o (cross m.floats a.vvec b.vvec) (cross_checks o a.vvec b.vvec f)
      else unfolded f

  unfoldable pub op_length : AstValue → Folder → Folded
  op_length a f =
      if fold_can_1 a && is_string a.vtype
      then float_of m o (m.of_size (length (bytes_of a.vstring))) false f
      else if is_array a.vtype
      then float_of m o (m.of_size a.elements) false f
      else unfolded f
