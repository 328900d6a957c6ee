-- ===== src/Fold/Peephole.antt =====
-- The binary operations that `fold::binary` leaves out.
use gmqcc.Prelude.{ℕ, arith, ◌≡◌, refl, ap, true, false, none, some}
use gmqcc.Vm.Opcodes.{instr_mul_v}
use gmqcc.Vm.Step.{Floats}
use gmqcc.Vm.Exec.{same_vector}
use gmqcc.Fold.{AstValue, Options, Folder, fold_can_1, fold_can_2, type_vector, is_vector, is_float}
use gmqcc.Fold.Vectors.{Arithmetic, one, is_zero}
use gmqcc.Fold.Operators.{operand, op_mul, mul_vector, mul_components, op_mul_vec, component}
use gmqcc.Fold.Select.{binary, kept_or_new, superfluous, can_fold}

fold_can_1-can_fold : (v : AstValue) → fold_can_1 v ≡ true → can_fold v ≡ true
fold_can_1-can_fold v h = ground arith

can_2-false : (a b : AstValue) → fold_can_1 a ≡ false → fold_can_2 a b ≡ false
can_2-false a b h = rw h refl

ones_component :
    (m : Arithmetic) (o : Options) (i : ℕ)
    → m.floats.eq one 0 ≡ false
    → is_zero m.floats (component m o i (one, one, one)) ≡ false
ones_component m o i h = ground arith

no_component :
    (m : Arithmetic) (o : Options) (sel : AstValue) (set : ℕ × ℕ × ℕ) (f : Folder)
    → m.floats.eq one 0 ≡ false
    → op_mul_vec m o (one, one, one) sel set f ≡ (f, none)
unfolding op_mul_vec
no_component m o sel set f h =
    let place : (i : ℕ) → is_zero m.floats (component m o i (one, one, one)) ≡ false =
      λ i. ones_component m o i h in
    rw (place set.1) refl

no_components :
    (m : Arithmetic) (o : Options) (sel : AstValue) (f : Folder)
    → m.floats.eq one 0 ≡ false
    → mul_components m o (one, one, one) sel f ≡ (f, none)
unfolding mul_components
no_components m o sel f h =
    rw (no_component m o sel (0, 1, 2) f h, no_component m o sel (1, 0, 2) f h)
      (no_component m o sel (2, 0, 1) f h)

superfluous_ones :
    (fl : Floats) (left right : AstValue)
    → fl.eq one one ≡ true
    → can_fold right ≡ true
    → right.vvec ≡ (one, one, one)
    → superfluous fl left right instr_mul_v ≡ some left
unfolding superfluous same_vector
superfluous_ones fl left right same can ones = rw (can, ones, same) refl

-- The multiplication of a vector that is not constant by the constant '1 1 1' is not folded by
-- `op_mul`, and `fold::binary` then returns the vector itself in the place of the dot product, which
-- is a float. The machine's comparison tells 1 from 0 and takes 1 as equal to itself.
pub mul_v_ones :
    (m : Arithmetic) (o : Options) (f : Folder) (left right : AstValue)
    → m.floats.eq one one ≡ true
    → m.floats.eq one 0 ≡ false
    → left.vtype ≡ type_vector
    → right.vtype ≡ type_vector
    → fold_can_1 left ≡ false
    → fold_can_1 right ≡ true
    → right.vvec ≡ (one, one, one)
    → ((op_mul m o left right f).1 ≡ none) × (binary m.floats instr_mul_v left right ≡ operand left)
unfolding op_mul mul_vector binary superfluous same_vector
mul_v_ones m o f left right same differs vl vr cl cr ones =
    let left_float : is_float left.vtype ≡ false = ap is_float vl in
    let left_vector : is_vector left.vtype ≡ true = ap is_vector vl in
    let right_float : is_float right.vtype ≡ false = ap is_float vr in
    (
      rw
          (
            left_float,
            left_vector,
            right_float,
            can_2-false left right cl,
            cl,
            cr,
            ones,
            no_components m o left f differs,
          )
          (ground arith),
      ap (kept_or_new instr_mul_v left right)
          (superfluous_ones m.floats left right same (fold_can_1-can_fold right cr) ones),
    )
