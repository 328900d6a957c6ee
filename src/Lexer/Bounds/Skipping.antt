-- ===== src/Lexer/Bounds/Skipping.antt =====
-- The bounds along `lex_skipwhite`, for the preprocessor.
use gmqcc.Prelude.{
  ℕ, zero, suc, ◌+◌, ◌-◌, ◌≤◌, ◌<◌, Bool, true, false, ◌≡◌, refl, ◌⊎◌, inl, inr, ◌==◌, arith,
  Bool-cases,
}
use gmqcc.Lexer.{LexFile, Lex}
use gmqcc.Lexer.Chars.{Config, is_space}
use gmqcc.Lexer.White.{
  Skip, returns, goes_on, skip_comment, end_white, or_comment, repeated, lex_skipwhite,
}
use gmqcc.Lexer.Bounds.{At, Gives, weight, done_lem, bind_lem}
use gmqcc.Lexer.Bounds.Steps.{relax, getch_from, getch_then, ungetch_then, tokench_then}
use gmqcc.Lexer.Bounds.Blanks.{
  debt, is_blank, IsWhite, After, blank-weight, char-weight, skip_blanks_lem,
}
use gmqcc.Lexer.Bounds.Comments.{in_pre-At, line_comment_lem, block_comment_lem}

slash_stays : is_blank b'/' ≡ false
unfolding is_space
slash_stays = refl

debt_le : (w : Bool) → debt w ≤ 1
debt_le true = omega arith
debt_le false = omega arith

skip_comment_lem :
    (n : ℕ) {d m : ℕ} (w : Bool) {l : LexFile}
    → At 4 (1 + d) (m + debt w) l
    → m + debt w < n
    → Gives (After d m) (skip_comment n w l)
unfolding skip_comment
skip_comment_lem n {d = d} {m = m} w {l = l} a f =
    let q = m + debt w - (1 + d) in
    rw a.preprocesses (
      getch_from {k = 3} {m = q} _ (omega arith)
        (relax (in_pre-At a) (omega arith) (omega (arith, a.left)))
        λ c l₁ a₁. elim (Bool-cases (c == b'/')) [
          | inl e ↦
              let v = char-weight c b'/' e (omega arith) in
              rw e (
                getch_then (q - 1) _ a₁ (omega arith) (omega (arith, v)) λ first l₂ a₂.
                  tokench_then a₂ b' ' _ λ l₃ a₃. tokench_then a₃ b' ' _ λ l₄ a₄.
                    bind_lem _ _
                      (line_comment_lem n {m = q - 1} first a₄ (omega (arith, f)) (omega arith))
                      λ last l₅ a₅.
                        ungetch_then {k = 4} {m = q} b'\n' _ (omega arith)
                          (relax a₅ (omega arith) (omega (arith, v, a₁.left)))
                          λ u l₆ a₆.
                            done_lem _ _
                              (inl refl, relax a₆ (omega arith) (omega (arith, a.left, debt_le w))))
          | inr e ↦ elim (Bool-cases (c == b'*')) [
            | inl g ↦
                let v = char-weight c b'*' g (omega arith) in
                rw (e, g)
                  (tokench_then a₁ b' ' _ λ l₂ a₂. tokench_then a₂ b' ' _ λ l₃ a₃.
                    bind_lem _ _
                      (block_comment_lem n {p = q - 1} {m = q - 1} c
                        (relax a₃ (omega arith) (omega (arith, v))) (omega (arith, v, a₁.left, f))
                        (omega arith))
                      λ u l₄ a₄. done_lem _ _ (
                        λ b. refl,
                        relax a₄ (omega arith) (omega (arith, a.left, debt_le w, v, a₁.left)),
                      ))
            | inr g ↦
                rw (e, g)
                  (ungetch_then c _ (omega arith) a₁ λ u l₂ a₂.
                    done_lem _ _
                      (λ b. cc (b, slash_stays), relax a₂ (omega arith) (omega (arith, a.left))))
          ]
        ])

or_comment_lem :
    (n : ℕ) {d m : ℕ} (s : Skip) (l : LexFile)
    → After d m s l
    → m + 1 < n
    → Gives (After d m) (or_comment s n l)
or_comment_lem n (returns t) l a f = done_lem _ _ a
or_comment_lem n {m = m} (goes_on c w) l (b, a) f = elim (Bool-cases (c == b'/')) [
  | inl e ↦ rw e (
      skip_comment_lem n w
        (relax a (omega arith) (omega (arith, char-weight c b'/' e (omega arith))))
        (omega (arith, f, debt_le w)))
  | inr e ↦ rw e (done_lem _ _ (b, a))
]

-- How `lex_skipwhite` ends: with a token, or with the character behind the white space.
abbrev pub Starts : ℕ → ℕ → ℕ → LexFile → Type 0
Starts d m t l = (IsWhite t × At 5 d m l) ⊎ At 4 (weight t + d) (m + 1) l

end_white_lem :
    {d m p : ℕ} (c : ℕ) (w : Bool) {l : LexFile}
    → At 4 (weight c + d) (p + debt w) l
    → p ≤ m
    → Gives (Starts d m) (end_white c w l)
unfolding end_white
end_white_lem {d} {m} {p} c true a h =
    ungetch_then {k = 4} {m = p - d} c _ (omega arith)
      (relax a (omega arith) (omega (arith, a.left)))
      λ u l₁ a₁. done_lem _ _ (inl (inl refl, relax a₁ (omega arith) (omega (arith, a.left, h))))
end_white_lem c false a h = done_lem _ _ (inr (relax a (omega arith) (omega (arith, h))))

-- The end of a turn, with the next turns as `again`, which come behind white space only.
repeated_lem :
    {d m p : ℕ} (s : Skip) (l : LexFile) (again : Bool → Lex ℕ)
    → After d p s l
    → p ≤ m
    → ((l' : LexFile) → At 5 (1 + d) p l' → Gives (Starts d m) (again true l'))
    → Gives (Starts d m) (repeated s again l)
repeated_lem (returns t) l again (i, a) h q =
    done_lem _ _ (inl (i, relax a (omega arith) (omega (arith, h))))
repeated_lem {d} {m} {p} (goes_on c w) l again (b, a) h q = elim (Bool-cases (is_blank c)) [
  | inr e ↦ rw e (end_white_lem c w a h)
  | inl e ↦
      let z : debt w ≡ 0 = rw (b e) in
      rw (e, b e) (q l (relax a (omega arith) (omega (arith, z, blank-weight c e))))
]

pub lex_skipwhite_lem :
    (o : Config) (n : ℕ) {p d m m' : ℕ} (w : Bool) {l : LexFile}
    → At 5 0 p l
    → p + d ≤ m + debt w
    → m + 1 < n
    → m ≤ m'
    → Gives (Starts d m') (lex_skipwhite o n w l)
unfolding lex_skipwhite
lex_skipwhite_lem o zero w a h f g = absurd (omega arith)
lex_skipwhite_lem o (suc n) {p = p} {d = d} {m = m} w a h f g =
    getch_then p _ a (omega arith) (omega arith) λ c l₁ a₁.
      bind_lem _ _
        (skip_blanks_lem o (suc n) {d = d} {m = m} c w a₁ (omega (arith, h, f, debt_le w)) h)
        λ s l₂ a₂. bind_lem _ _ (or_comment_lem (suc n) s l₂ a₂ f) λ s' l₃ a₃.
          repeated_lem s' l₃ _ a₃ g λ l₄ a₄.
            lex_skipwhite_lem o n {p = m - 1 - d} {d = d} {m = m - 1} true
              (relax a₄ (omega arith) (omega (arith, a₄.left))) (omega (arith, a₄.left))
              (omega (arith, f, a₄.left)) (omega (arith, g))
