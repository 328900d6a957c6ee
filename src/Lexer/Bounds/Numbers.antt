-- ===== src/Lexer/Bounds/Numbers.antt =====
-- The bounds along `lex_finish_digit`.
use gmqcc.Prelude.{
  ℕ, zero, suc, ◌-◌, ◌≤◌, ◌<◌, Bool, true, false, not, ◌&&◌, ◌||◌, ◌≡◌, ◌==◌, arith, Bool-cases,
  inl, inr,
}
use gmqcc.Lexer.{LexFile}
use gmqcc.Lexer.Chars.{Config, is_digit, isxdigit_only, isident, between}
use gmqcc.Lexer.Digits.{
  take_digits, starts_octal, ends_number, is_hex, number_value, close_number, end_number,
  float_part, int_part, lex_finish_digit,
}
use gmqcc.Lexer.Bounds.{At, Held, Gives, weight, done_lem, bind_lem}
use gmqcc.Lexer.Bounds.Steps.{
  relax, getch_then, ungetch_then, tokench_then, constval_then, Left, kind_lem, error_lem,
}

digit-weight :
    (ishex : Bool) (c : ℕ) → (is_digit c || ishex && isxdigit_only c) ≡ true → weight c ≡ 1
unfolding is_digit isxdigit_only
digit-weight ishex c e = ground arith

take_digits_lem :
    (ishex : Bool) (n : ℕ) {p m : ℕ} {l : LexFile} (c : ℕ)
    → Held 4 p c l
    → p < n
    → p ≤ m
    → Gives (Held 4 m) (take_digits ishex n c l)
unfolding take_digits
take_digits_lem ishex zero c a h h' = absurd (omega arith)
take_digits_lem ishex (suc n) {p = p} c a h h' =
    elim (Bool-cases (is_digit c || ishex && isxdigit_only c)) [
      | inl e ↦
          let w = digit-weight ishex c e in
          rw e (
            tokench_then a c _ λ l₁ a₁.
              getch_then (p - 1) _ a₁ (omega arith) (omega (arith, w)) λ next l₂ a₂.
                take_digits_lem ishex n next a₂ (omega (arith, a₁.left, w, h)) (omega (arith, h')))
      | inr e ↦ rw e (done_lem _ _ (relax a (omega arith) (omega (arith, h'))))
    ]

module _ (o : Config) {p m : ℕ} where
  close_number_lem :
      (is_float : Bool) (base c : ℕ) {l : LexFile}
      → Held 4 p c l
      → p ≤ m
      → Gives (Left m) (close_number o is_float base c l)
  unfolding close_number number_value
  close_number_lem is_float base c a h = elim (Bool-cases (isident c false)) [
    | inl e ↦ rw e (error_lem _ _ a (omega arith) (omega (arith, h)))
    | inr e ↦ rw e (
        ungetch_then c _ (omega arith) a
          λ u l₁ a₁. constval_then a₁ _ _ λ l₂ a₂. kind_lem _ a₂ (omega arith) (omega (arith, h)))
  ]

  end_number_lem :
      (is_float : Bool) (base c : ℕ) {l : LexFile}
      → Held 4 p c l
      → p ≤ m
      → Gives (Left m) (end_number o is_float base c l)
  unfolding end_number
  end_number_lem is_float base c a h = elim (Bool-cases (is_float && c == b'f')) [
    | inl e ↦ rw e (
        getch_then p _ a (omega arith) (omega arith)
          λ ch l₁ a₁. close_number_lem is_float base ch a₁ h)
    | inr e ↦ rw e (close_number_lem is_float base c a h)
  ]

  float_part_lem :
      (n : ℕ) (is_float ishex : Bool) (base c : ℕ) {l : LexFile}
      → Held 4 p c l
      → p < n
      → p ≤ m
      → Gives (Left m) (float_part o n is_float ishex base c l)
  unfolding float_part
  float_part_lem n is_float ishex base c a f h =
      elim (Bool-cases (not is_float && (c == b'.' && not ishex))) [
        | inl e ↦ rw e (
            tokench_then a c _ λ l₁ a₁. getch_then p _ a₁ (omega arith) (omega arith) λ next l₂ a₂.
              bind_lem _ _ (take_digits_lem false n next a₂ f (omega arith))
                λ last l₃ a₃. end_number_lem true base last a₃ h)
        | inr e ↦ rw e (end_number_lem is_float base c a h)
      ]

  int_part_lem :
      (n : ℕ) (ishex : Bool) (c : ℕ) {l : LexFile}
      → Held 4 p c l
      → p < n
      → p ≤ m
      → Gives (Held 4 m) (int_part n ishex c l)
  unfolding int_part
  int_part_lem n ishex c a f h = elim (Bool-cases (c == b'.')) [
    | inl e ↦ rw e (done_lem _ _ (relax a (omega arith) (omega (arith, h))))
    | inr e ↦ rw e (
        tokench_then a c _ λ l₁ a₁.
          getch_then p _ a₁ (omega arith) (omega arith)
            λ next l₂ a₂. take_digits_lem ishex n next a₂ f h)
  ]

-- The first digit is given up.
pub lex_finish_digit_lem :
    (o : Config) (n lastch : ℕ) {m : ℕ} {l : LexFile}
    → At 5 0 m l
    → m < n
    → Gives (Left m) (lex_finish_digit o n lastch l)
unfolding lex_finish_digit
lex_finish_digit_lem o n lastch {m = m} a f = tokench_then a lastch _ λ l₁ a₁.
    getch_then m _ a₁ (omega arith) (omega arith) λ ch l₂ a₂.
      elim (Bool-cases (starts_octal lastch ch && not (between b'0' b'7' ch))) [
        | inl e ↦ rw e (error_lem _ _ a₂ (omega arith) (omega arith))
        | inr e ↦ elim (Bool-cases (ends_number (starts_octal lastch ch) lastch ch)) [
          | inl d ↦
              rw (e, d)
                (ungetch_then ch _ (omega arith) a₂ λ u l₃ a₃.
                  constval_then a₃ _ _ λ l₄ a₄. kind_lem _ a₄ (omega arith) (omega arith))
          | inr d ↦
              rw (e, d)
                (bind_lem _ _
                  (int_part_lem o n (is_hex (starts_octal lastch ch) ch) ch a₂ f (omega arith))
                  λ last l₃ a₃. float_part_lem o n _ _ _ last a₃ f (omega arith))
        ]
      ]
