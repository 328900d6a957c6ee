-- ===== src/Lexer/Bounds/Operators.antt =====
-- The bounds along operators and punctuation, for the preprocessor.
use gmqcc.Prelude.{
  ℕ, ◌-◌, ◌<◌, Bool, true, false, not, ◌&&◌, ◌||◌, ◌≡◌, inl, inr, ◌==◌, if◌then◌else◌, arith,
  Bool-cases,
}
use gmqcc.Lexer.{LexFile, Lex, lex_ungetch, ◌>>◌}
use gmqcc.Lexer.Chars.{Config, is_digit, set_ttype, token_operator}
use gmqcc.Lexer.Operators.{
  whole, bracket, single_char, one_of, opening, closing, dots, dot, third_char, and_not, negative,
  operator_tail, operator, product_operator,
}
use gmqcc.Lexer.Bounds.{At, Held, Gives, weight, done_lem, bind_lem}
use gmqcc.Lexer.Bounds.Steps.{
  relax, getch_from, getch_then, ungetch_then, tokench_then, constval_then, kind_lem, Left,
}
use gmqcc.Lexer.Bounds.Numbers.{lex_finish_digit_lem}
use gmqcc.Lexer.Bounds.Blanks.{char-weight}

tilde-weight : (b : Bool) (c : ℕ) → (b && c == b'~') ≡ true → weight c ≡ 1
tilde-weight true c e = char-weight c b'~' e (omega arith)
tilde-weight false c e = cc e

module _ {m : ℕ} where
  pub whole_lem : (ch t : ℕ) {x : ℕ} {l : LexFile} → At 4 x m l → Gives (Left m) (whole ch t l)
  whole_lem ch t a = tokench_then a ch _ λ l₁ a₁. kind_lem t a₁ (omega arith) (omega arith)

  -- A look at one more character.
  bracket_lem :
      (ch two one : ℕ) {x : ℕ} {l : LexFile} → At 4 x m l → Gives (Left m) (bracket ch two one l)
  unfolding bracket
  bracket_lem ch two one a =
      getch_from {k = 3} {m = m} _ (omega arith) (relax a (omega arith) (omega arith)) λ c l₁ a₁.
        elim (Bool-cases (c == ch)) [
          | inl e ↦ rw e (
              tokench_then a₁ ch _
                λ l₂ a₂. tokench_then a₂ c _ λ l₃ a₃. kind_lem two a₃ (omega arith) (omega arith))
          | inr e ↦ rw e (ungetch_then c _ (omega arith) a₁ λ u l₂ a₂. whole_lem ch one a₂)
        ]

  third_char_lem :
      (last : ℕ) {x : ℕ} {l : LexFile} → At 4 x m l → Gives (Left m) (third_char last l)
  unfolding third_char
  third_char_lem last a =
      getch_from {k = 3} {m = m} _ (omega arith) (relax a (omega arith) (omega arith)) λ c l₁ a₁.
        elim (Bool-cases (c == last)) [
          | inl e ↦ rw e (tokench_then a₁ c _ λ l₂ a₂. kind_lem _ a₂ (omega arith) (omega arith))
          | inr e ↦ rw e (
              ungetch_then c _ (omega arith) a₁
                λ u l₂ a₂. kind_lem _ a₂ (omega arith) (omega arith))
        ]

  -- Two characters are put back.
  and_not_lem : {l : LexFile} → At 3 1 m l → Gives (Left m) (and_not l)
  unfolding and_not
  and_not_lem a =
      getch_from {k = 3} {m = m - 1} _ (omega arith) (relax a (omega arith) (omega (arith, a.left)))
        λ c l₁ a₁. elim (Bool-cases (c == b'=')) [
          | inl e ↦ rw e (
              tokench_then a₁ b'~' _
                λ l₂ a₂. tokench_then a₂ c _ λ l₃ a₃. kind_lem _ a₃ (omega arith) (omega arith))
          | inr e ↦ rw e (
              ungetch_then c _ (omega arith) a₁ λ u l₂ a₂.
                ungetch_then {k = 4} {m = m} b'~' _ (omega arith)
                  (relax a₂ (omega arith) (omega (arith, a.left)))
                  λ w l₃ a₃. kind_lem _ a₃ (omega arith) (omega arith))
        ]

  pub product_operator_lem :
      (ch : ℕ) {x : ℕ} {l : LexFile} → At 4 x m l → Gives (Left m) (product_operator ch l)
  unfolding product_operator
  product_operator_lem ch a = tokench_then a ch _ λ l₁ a₁.
      getch_then m _ a₁ (omega arith) (omega arith) λ c l₂ a₂.
        elim (Bool-cases (c == b'=' || c == b'*')) [
          | inl e ↦ rw e (tokench_then a₂ c _ λ l₃ a₃. kind_lem _ a₃ (omega arith) (omega arith))
          | inr e ↦ rw e (
              ungetch_then c _ (omega arith) a₂
                λ u l₃ a₃. kind_lem _ a₃ (omega arith) (omega arith))
        ]

  dots_lem : (noops : Bool) {l : LexFile} → At 5 0 m l → Gives (Left m) (dots noops l)
  unfolding dots
  dots_lem noops a = tokench_then a b'.' _ λ l₁ a₁.
      getch_then m _ a₁ (omega arith) (omega arith) λ c l₂ a₂. elim (Bool-cases (c == b'.')) [
        | inr e ↦
            rw e (
              ungetch_then c _ (omega arith) a₂
                λ u l₃ a₃. kind_lem _ a₃ (omega arith) (omega arith))
        | inl e ↦
            let v = char-weight c b'.' e (omega arith) in
            rw e (
              getch_from {k = 3} {m = m - 1} _ (omega arith)
                (relax a₂ (omega arith) (omega (arith, v, a₂.left)))
                λ d l₃ a₃. elim (Bool-cases (d == b'.')) [
                  | inl g ↦ rw g (
                      tokench_then a₃ _ _ λ l₄ a₄.
                        tokench_then a₄ _ _ λ l₅ a₅. kind_lem _ a₅ (omega arith) (omega arith))
                  | inr g ↦ rw g (
                      ungetch_then d _ (omega arith) a₃ λ u l₄ a₄.
                        ungetch_then {k = 4} {m = m} b'.' _ (omega arith)
                          (relax a₄ (omega arith) (omega (arith, v, a₂.left)))
                          λ w l₅ a₅. kind_lem _ a₅ (omega arith) (omega arith))
                ])
      ]

module _ (o : Config) (n : ℕ) {m : ℕ} (f : m < n) where
  pub dot_lem : (noops : Bool) {x : ℕ} {l : LexFile} → At 4 x m l → Gives (Left m) (dot o n noops l)
  unfolding dot
  dot_lem noops a =
      getch_from {k = 3} {m = m} _ (omega arith) (relax a (omega arith) (omega arith)) λ c l₁ a₁.
        ungetch_then c _ (omega arith) a₁ λ u l₂ a₂. elim (Bool-cases (is_digit c)) [
          | inl e ↦ rw e (lex_finish_digit_lem o n b'.' (relax a₂ (omega arith) (omega arith)) f)
          | inr e ↦ rw e (dots_lem noops (relax a₂ (omega arith) (omega arith)))
        ]

  negative_lem : (c : ℕ) {l : LexFile} → At 5 0 m l → Gives (Left m) (negative o n c l)
  unfolding negative
  negative_lem c a =
      bind_lem _ _ (lex_finish_digit_lem o n c a f)
        λ kind l₁ a₁. constval_then a₁ _ _ λ l₂ a₂. done_lem _ _ a₂

  -- The branches in their order, from `&~` on, and before it.
  operator_end_lem :
      (pre : Bool) (ch c : ℕ) {l : LexFile}
      → Held 3 m c l
      → Gives (Left m) (
          (if ch == b'&' && c == b'~'
              then and_not
              else if pre && (ch == b'-' && is_digit c)
              then negative o n c
              else (lex_ungetch c >> set_ttype token_operator))
            l)
  operator_end_lem pre ch c a = elim (Bool-cases (ch == b'&' && c == b'~')) [
    | inl e ↦
        rw e (and_not_lem (relax a (omega arith) (omega (arith, tilde-weight (ch == b'&') c e))))
    | inr e ↦ elim (Bool-cases (pre && (ch == b'-' && is_digit c))) [
      | inl g ↦ rw (e, g) (negative_lem c (relax a (omega arith) (omega arith)))
      | inr g ↦
          rw (e, g)
            (ungetch_then c _ (omega arith) a λ u l₁ a₁. kind_lem _ a₁ (omega arith) (omega arith))
    ]
  ]

  operator_tail_lem :
      (pre : Bool) (ch c : ℕ) {l : LexFile}
      → Held 3 m c l
      → Gives (Left m) (operator_tail o n pre ch c l)
  unfolding operator_tail
  operator_tail_lem pre ch c a =
      elim (Bool-cases (c == b'=' && not (ch == b'<') || c == b'<' && ch == b'>')) [
        | inl e ↦ rw e (whole_lem c _ {x = 0} (relax a (omega arith) (omega arith)))
        | inr e ↦ elim (Bool-cases (c == ch && not (ch == b'!'))) [
          | inl g ↦
              rw (e, g)
                (tokench_then a c _
                  λ l₁ a₁. third_char_lem _ {x = 0} (relax a₁ (omega arith) (omega arith)))
          | inr g ↦ elim (Bool-cases (ch == b'<' && c == b'=')) [
            | inl k ↦
                rw (e, g, k)
                  (tokench_then a c _
                    λ l₁ a₁. third_char_lem _ {x = 0} (relax a₁ (omega arith) (omega arith)))
            | inr k ↦ elim (Bool-cases (ch == b'-' && c == b'>')) [
              | inl i ↦
                  rw (e, g, k, i) (whole_lem c _ {x = 0} (relax a (omega arith) (omega arith)))
              | inr i ↦ rw (e, g, k, i) (operator_end_lem pre ch c a)
            ]
          ]
        ]
      ]

  pub operator_lem :
      (pre : Bool) (ch : ℕ) {x : ℕ} {l : LexFile}
      → At 4 x m l
      → Gives (Left m) (operator o n pre ch l)
  unfolding operator
  operator_lem pre ch a = tokench_then a ch _ λ l₁ a₁.
      getch_from {k = 3} {m = m} _ (omega arith) (relax a₁ (omega arith) (omega arith))
        λ c l₂ a₂. operator_tail_lem pre ch c a₂

module _ {m : ℕ} (noops : Bool) (ch : ℕ) (rest : Lex ℕ) where
  pub single_char_lem :
      {x : ℕ} {l : LexFile}
      → At 4 x m l
      → Gives (Left m) (rest l)
      → Gives (Left m) (single_char noops ch rest l)
  unfolding single_char
  single_char_lem a q = elim (Bool-cases (ch == b'[')) [
    | inl e ↦ rw e (bracket_lem ch _ _ a)
    | inr e ↦ elim (Bool-cases (one_of opening ch)) [
      | inl g ↦ rw (e, g) (whole_lem ch _ a)
      | inr g ↦ elim (Bool-cases (ch == b']' && noops)) [
        | inl k ↦ rw (e, g, k) (bracket_lem ch _ _ a)
        | inr k ↦ elim (Bool-cases (one_of closing ch)) [
          | inl i ↦ rw (e, g, k, i) (whole_lem ch _ a)
          | inr i ↦ rw (e, g, k, i) q
        ]
      ]
    ]
  ]
