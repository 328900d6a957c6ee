-- ===== src/Fold/Elision.antt =====
-- The values of the operations on floats that `fold::binary` leaves out.
use gmqcc.Prelude.{
  ℕ, ◌≡◌, refl, ◌⊎◌, inl, inr, Bool, true, false, Option, none, some, if◌then◌else◌, Bool-cases,
}
use gmqcc.Vm.Words.{◌>>=◌}
use gmqcc.Vm.Opcodes.{Opcode, instr_add_f, instr_sub_f, instr_mul_f, instr_div_f}
use gmqcc.Vm.Step.{Floats}
use gmqcc.Vm.Exec.{divide}
use gmqcc.Fold.{AstValue, immvalue_float}
use gmqcc.Fold.Vectors.{one}
use gmqcc.Fold.Operators.{Expr, operand, binary_node, member_node}
use gmqcc.Fold.Select.{binary, kept_or_new, superfluous, can_fold, does_nothing}

-- What the machine's arithmetic promises of 1 and of both zeros, for a number that is no NaN.
pub record HasUnits (fl : Floats) : Type 0 where
  pub one_nonzero : (w : ℕ) → fl.eq w one ≡ true → fl.eq w 0 ≡ false
  pub mul_one : (v w : ℕ) → fl.eq v v ≡ true → fl.eq w one ≡ true → fl.eq v (fl.mul v w) ≡ true
  pub one_mul : (v w : ℕ) → fl.eq v v ≡ true → fl.eq w one ≡ true → fl.eq v (fl.mul w v) ≡ true
  pub div_one : (v w : ℕ) → fl.eq v v ≡ true → fl.eq w one ≡ true → fl.eq v (fl.div v w) ≡ true
  pub add_zero : (v w : ℕ) → fl.eq v v ≡ true → fl.eq w 0 ≡ true → fl.eq v (fl.add v w) ≡ true
  pub zero_add : (v w : ℕ) → fl.eq v v ≡ true → fl.eq w 0 ≡ true → fl.eq v (fl.add w v) ≡ true
  pub sub_zero : (v w : ℕ) → fl.eq v v ≡ true → fl.eq w 0 ≡ true → fl.eq v (fl.sub v w) ≡ true

-- What the instruction computes from two words.
abbrev pub float_op : Floats → Opcode → Option (ℕ → ℕ → ℕ)
float_op fl instr_add_f = some fl.add
float_op fl instr_sub_f = some fl.sub
float_op fl instr_mul_f = some fl.mul
float_op fl instr_div_f = some (divide fl)
float_op fl other = none

-- The word of an expression, where each operand has the word that `words` says.
unfoldable pub eval : Floats → (AstValue → ℕ) → Expr → Option ℕ
eval fl words (operand v) = some (words v)
eval fl words (member_node v i) = none
eval fl words (binary_node op' l r) = do
  g ← float_op fl op'
  x ← eval fl words l
  y ← eval fl words r
  some (g x y)

abbrev Means : Floats → (AstValue → ℕ) → Expr → ℕ → Type 0
Means fl words e x = (w : ℕ) × (eval fl words e ≡ some w) × ((w ≡ x) ⊎ (fl.eq w x ≡ true))

module _ (fl : Floats) (laws : HasUnits fl) (words : AstValue → ℕ)
    (constants : (v : AstValue) → can_fold v ≡ true → words v ≡ immvalue_float v) (l r : AstValue)
    (number_l : fl.eq (words l) (words l) ≡ true)
    (number_r : fl.eq (words r) (words r) ≡ true) where
  kept_or_new-Means :
      (op' : Opcode) (g : ℕ → ℕ → ℕ) (e : AstValue) (test : Bool)
      → float_op fl op' ≡ some g
      → (test ≡ true → fl.eq (words e) (g (words l) (words r)) ≡ true)
      → Means fl words (kept_or_new op' l r (if test then some e else none)) (g (words l) (words r))
  unfolding eval
  kept_or_new-Means op' g e true known same = (words e, refl, inr (same refl))
  kept_or_new-Means op' g e false known same = (g (words l) (words r), rw known refl, inl refl)

  new-Means :
      (op' : Opcode) (g : ℕ → ℕ → ℕ)
      → float_op fl op' ≡ some g
      → Means fl words (kept_or_new op' l r none) (g (words l) (words r))
  unfolding eval
  new-Means op' g known = (g (words l) (words r), rw known refl, inl refl)

  -- Either the right operand is constant, or only the left one, or none.
  binary-Means_by :
      (op' : Opcode) (g : ℕ → ℕ → ℕ)
      → float_op fl op' ≡ some g
      → (can_fold r ≡ true
          → does_nothing fl op' false r ≡ true
          → fl.eq (words l) (g (words l) (words r)) ≡ true)
      → (can_fold l ≡ true
          → does_nothing fl op' true l ≡ true
          → fl.eq (words r) (g (words l) (words r)) ≡ true)
      → Means fl words (binary fl op' l r) (g (words l) (words r))
  unfolding binary superfluous
  binary-Means_by op' g known right left = elim (Bool-cases (can_fold r)) [
    | inl e ↦ rw e (kept_or_new-Means op' g l _ known (right e))
    | inr e ↦ elim (Bool-cases (can_fold l)) [
      | inl e' ↦ rw (e, e') (kept_or_new-Means op' g r _ known (left e'))
      | inr e' ↦ rw (e, e') (new-Means op' g known)
    ]
  ]

  div_by_one : (w : ℕ) → fl.eq w one ≡ true → fl.eq (words l) (divide fl (words l) w) ≡ true
  unfolding divide
  div_by_one w h = rw (laws.one_nonzero w h) (laws.div_one (words l) w number_l h)

  -- The expression that `fold::binary` returns for an addition, a subtraction, a multiplication or a
  -- division of floats has the word that the instruction computes from the words of the operands, or
  -- one that compares equal to it. The operands are no NaN, and the arithmetic leaves a number
  -- unchanged up to that comparison when it adds or subtracts 0, or multiplies or divides by 1.
  pub binary-value :
      (op' : Opcode) (g : ℕ → ℕ → ℕ)
      → float_op fl op' ≡ some g
      → (w : ℕ) × (eval fl words (binary fl op' l r) ≡ some w)
        × ((w ≡ g (words l) (words r)) ⊎ (fl.eq w (g (words l) (words r)) ≡ true))
  binary-value instr_add_f g known =
      let is_known : g ≡ fl.add = cc known in
      rw is_known (
        binary-Means_by instr_add_f (fl.add) refl
          (λ c t. rw (constants r c) (laws.add_zero (words l) (immvalue_float r) number_l t))
          (λ c t. rw (constants l c) (laws.zero_add (words r) (immvalue_float l) number_r t)))
  binary-value instr_sub_f g known =
      let is_known : g ≡ fl.sub = cc known in
      rw is_known (
        binary-Means_by instr_sub_f (fl.sub) refl
          (λ c t. rw (constants r c) (laws.sub_zero (words l) (immvalue_float r) number_l t))
          (λ c t. absurd (cc t)))
  binary-value instr_mul_f g known =
      let is_known : g ≡ fl.mul = cc known in
      rw is_known (
        binary-Means_by instr_mul_f (fl.mul) refl
          (λ c t. rw (constants r c) (laws.mul_one (words l) (immvalue_float r) number_l t))
          (λ c t. rw (constants l c) (laws.one_mul (words r) (immvalue_float l) number_r t)))
  binary-value instr_div_f g known =
      let is_known : g ≡ divide fl = cc known in
      rw is_known (
        binary-Means_by instr_div_f (divide fl) refl
          (λ c t. rw (constants r c) (div_by_one (immvalue_float r) t)) (λ c t. absurd (cc t)))
  binary-value other g known = absurd (cc known)
