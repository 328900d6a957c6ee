-- ===== src/Lexer/Bounds/Blanks.antt =====
-- The bounds along the loop of `lex_skipwhite` over white space, for the preprocessor.
use gmqcc.Prelude.{
  ℕ, zero, suc, ◌+◌, ◌-◌, ◌≤◌, ◌<◌, Bool, true, false, not, ◌&&◌, ◌≡◌, refl, sym, ◌⊎◌, inl, inr,
  ◌==◌, if◌then◌else◌, arith, Bool-cases,
}
use gmqcc.Lexer.{LexFile, lex_ungetch, end_of_file, pure, ◌>>◌}
use gmqcc.Lexer.Chars.{Config, is_space, token_white, token_eol}
use gmqcc.Lexer.Pragma.{lex_try_pragma}
use gmqcc.Lexer.White.{Skip, returns, goes_on, skip_blanks}
use gmqcc.Lexer.Bounds.{At, Held, Gives, weight, done_lem}
use gmqcc.Lexer.Bounds.Steps.{relax, same_bounds, getch_then, ungetch_then, tokench_then}

-- White space is still to be found before a token for it is made.
abbrev pub debt : Bool → ℕ
debt haswhite = if haswhite then 0 else 1

abbrev pub is_blank : ℕ → Bool
is_blank c = not (c == end_of_file) && is_space c

abbrev pub IsWhite : ℕ → Type 0
IsWhite t = (t ≡ token_white) ⊎ (t ≡ token_eol)

-- Where a loop ends. A token takes `d` from the bound, and a blank comes behind white space only.
abbrev pub After : ℕ → ℕ → Skip → LexFile → Type 0
After d m (returns t) l = IsWhite t × At 5 d m l
After d m (goes_on c haswhite) l =
    ((is_blank c ≡ true) → haswhite ≡ true) × At 4 (weight c + d) (m + debt haswhite) l

pub blank-weight : (c : ℕ) → is_blank c ≡ true → weight c ≡ 1
blank-weight c e = ground arith

pub char-weight : (c k : ℕ) → (c == k) ≡ true → k < 256 → weight c ≡ 1
char-weight c k e h = ground arith

no_pragma :
    (o : Config) (n : ℕ) (l : LexFile)
    → l.preprocessing ≡ true
    → lex_try_pragma o n l ≡ pure false l
unfolding lex_try_pragma
no_pragma o n l e = rw e

no_pragma_if :
    (o : Config) (n : ℕ) (b : Bool) (l : LexFile)
    → l.preprocessing ≡ true
    → (if b then lex_try_pragma o n else pure false) l ≡ pure false l
no_pragma_if o n true l e = no_pragma o n l e
no_pragma_if o n false l e = refl

debt_paid : (w : Bool) (p d m : ℕ) → p + d ≤ m + debt w → 1 ≤ p → p - 1 + d ≤ m
debt_paid true p d m h k = omega arith
debt_paid false p d m h k = omega arith

-- The end of a line, which is a token itself where no white space came before.
line_end :
    (c : ℕ) {p d m : ℕ} {l : LexFile} (w : Bool)
    → Held 4 p c l
    → p + d ≤ m + debt w
    → weight c ≡ 1
    → Gives
        (After d m)
        ((if w then lex_ungetch c >> pure (returns token_white) else pure (returns token_eol)) l)
line_end c true a h v =
    ungetch_then c _ (omega arith) a
      λ u l₁ a₁. done_lem _ _ (inl refl, relax a₁ (omega arith) (omega (arith, h)))
line_end c false a h v = done_lem _ _ (inr refl, relax a (omega arith) (omega (arith, h, v)))

pub skip_blanks_lem :
    (o : Config) (n : ℕ) {p d m : ℕ} (c : ℕ) (haswhite : Bool) {l : LexFile}
    → Held 4 p c l
    → p < n
    → p + d ≤ m + debt haswhite
    → Gives (After d m) (skip_blanks o n c haswhite l)
unfolding skip_blanks
skip_blanks_lem o zero c w a f h = absurd (omega arith)
skip_blanks_lem o (suc n) {p = p} {d = d} {m = m} c w {l = l} a f h =
    elim (Bool-cases (is_blank c)) [
      | inr e ↦ rw e (done_lem _ _ (λ b. cc (e, b), relax a (omega arith) (omega (arith, h))))
      | inl e ↦
          let v = blank-weight c e in
          let b =
            same_bounds {l' = record l { preprocessing = true }} a (sym a.preprocesses) refl refl in
          rw (e, no_pragma_if o (suc n) (c == b'\n') l a.preprocesses, a.preprocesses)
            (elim (Bool-cases (c == b'\n')) [
              | inr g ↦ rw g (
                  tokench_then b c _ λ l₁ a₁.
                    getch_then (p - 1) _ a₁ (omega arith) (omega (arith, v)) λ next l₂ a₂.
                      skip_blanks_lem o n next true a₂ (omega (arith, v, a₁.left, f))
                        (omega (arith, debt_paid w p d m h (omega (arith, v, a₁.left)))))
              | inl g ↦ rw g (line_end c w b h v)
            ])
    ]
