-- ===== src/Lexer/Bounds/Comments.antt =====
-- The bounds along the comments that `lex_skipwhite` passes, for the preprocessor.
use gmqcc.Prelude.{
  ℕ, zero, suc, ◌+◌, ◌-◌, ◌≤◌, ◌<◌, Bool, true, false, not, ◌&&◌, ◌≡◌, refl, sym, inl, inr, ◌==◌,
  if◌then◌else◌, arith, Bool-cases,
}
use gmqcc.Lexer.{LexFile, Lex, end_of_file, and_then, when, ◌>>◌}
use gmqcc.Lexer.Chars.{lex_tokench}
use gmqcc.Lexer.White.{white_if, line_comment, comment_star, block_comment}
use gmqcc.Lexer.Bounds.{At, Held, Gives, weight, done_lem, bind_lem}
use gmqcc.Lexer.Bounds.Steps.{
  relax, same_bounds, getch_from, getch_then, ungetch_then, tokench_then, weight_char,
}
use gmqcc.Lexer.Bounds.Blanks.{char-weight}

abbrev pub in_pre : LexFile → LexFile
in_pre l = record l { preprocessing = true }

pub in_pre-At : {k x m : ℕ} {l : LexFile} → At k x m l → At k x m (in_pre l)
in_pre-At a = same_bounds a (sym a.preprocesses) refl refl

line-weight : (c : ℕ) → (not (c == end_of_file) && not (c == b'\n')) ≡ true → weight c ≡ 1
line-weight c e = ground arith

pub line_comment_lem :
    (n : ℕ) {p m : ℕ} (c : ℕ) {l : LexFile}
    → Held 4 p c l
    → p < n
    → p ≤ m
    → Gives (Held 4 m) (line_comment n c l)
unfolding line_comment
line_comment_lem zero c a f h = absurd (omega arith)
line_comment_lem (suc n) {p = p} c a f h =
    elim (Bool-cases (not (c == end_of_file) && not (c == b'\n'))) [
      | inl e ↦
          let v = line-weight c e in
          let b = in_pre-At a in
          rw (e, a.preprocesses)
            (tokench_then b b' ' _ λ l₁ a₁.
              getch_then (p - 1) _ a₁ (omega arith) (omega (arith, v)) λ next l₂ a₂.
                line_comment_lem n next a₂ (omega (arith, v, a₁.left, f)) (omega (arith, h)))
      | inr e ↦ rw e (done_lem _ _ (relax a (omega arith) (omega (arith, h))))
    ]

pub weight_le : (c : ℕ) → weight c ≤ 1
weight_le c = ground arith

comment_star_lem :
    (c : ℕ) {m : ℕ} {l : LexFile}
    → Held 3 m c l
    → Gives (λ r l'. At 4 (weight r.1) m l') (comment_star c l)
unfolding comment_star
comment_star_lem c {m = m} a = elim (Bool-cases (c == b'*')) [
  | inr e ↦ rw e (done_lem _ _ (relax a (omega arith) (omega arith)))
  | inl e ↦
      let v = char-weight c b'*' e (omega arith) in
      rw e (
        getch_from {k = 3} {m = m - 1} _ (omega arith)
          (relax a (omega arith) (omega (arith, v, a.left)))
          λ next l₁ a₁. elim (Bool-cases (next == b'/')) [
            | inl g ↦ rw g (done_lem _ _ (relax a₁ (omega arith) (omega arith)))
            | inr g ↦ rw g (
                ungetch_then next _ (omega arith) a₁ λ u l₂ a₂.
                  done_lem _ _ (relax a₂ (omega arith) (omega (arith, weight_le next, v, a.left))))
          ])
]

module _ {B : Type 0} {Q : B → LexFile → Type 0} {k x m : ℕ} {l : LexFile} where
  -- White space in the place of a comment's characters.
  pub white_then :
      (pre : Bool) (c : ℕ) (f : Unit {0} → Lex B)
      → At k x m l
      → ((l' : LexFile) → At k x m l' → Gives Q (f tt l'))
      → Gives Q (and_then (when pre (lex_tokench c) l) f)
  white_then true c f a q = tokench_then a c f q
  white_then false c f a q = q l a

when_lem :
    {k x m : ℕ} {l : LexFile} (pre : Bool) (c : ℕ)
    → At k x m l
    → Gives (λ u. At k x m) (white_if pre c l)
unfolding lex_tokench
when_lem true c a = done_lem _ _ (same_bounds a refl refl refl)
when_lem false c a = done_lem _ _ a

-- The rest of a turn behind the characters that it reads, the loop being `again`.
comment_turn :
    {n p m : ℕ} (pre : Bool) (r : Bool × ℕ) (l : LexFile)
    → At 4 (weight r.1) p l
    → p < n
    → p ≤ m
    → ((p' c : ℕ) (l' : LexFile)
        → At 4 0 p' l'
        → p' + weight c < n
        → p' ≤ m
        → Gives (λ u. At 4 0 m) (block_comment n c l'))
    → Gives
        (λ u. At 4 0 m)
        ((if r.0
            then (white_if pre b' ' >> white_if pre b' ')
            else (white_if pre (if r.1 == b'\n' then b'\n' else b' ') >> block_comment n r.1))
          l)
comment_turn pre (true, c) l a f h again =
    white_then pre b' ' _ a λ l₁ a₁. when_lem pre b' ' (relax a₁ (omega arith) (omega (arith, h)))
comment_turn {p = p} pre (false, c) l a f h again = white_then pre _ _ a λ l₁ a₁.
    again (p - weight c) c l₁ (relax a₁ (omega arith) (omega (arith, a₁.left)))
      (omega (arith, a₁.left, f)) (omega (arith, h))

pub block_comment_lem :
    (n : ℕ) {p m : ℕ} (c : ℕ) {l : LexFile}
    → At 4 0 p l
    → p + weight c < n
    → p ≤ m
    → Gives (λ u l'. At 4 0 m l') (block_comment n c l)
unfolding block_comment
block_comment_lem zero c a f h = absurd (omega arith)
block_comment_lem (suc n) {p = p} {m = m} c {l = l} a f h = elim (Bool-cases (c == end_of_file)) [
  | inl e ↦ rw e (done_lem _ _ (relax a (omega arith) (omega (arith, h))))
  | inr e ↦
      let v = weight_char c e in
      rw e (
        getch_from {k = 3} {m = p} _ (omega arith) a λ first l₁ a₁.
          bind_lem _ _ (comment_star_lem first a₁) λ r l₂ a₂.
            comment_turn l.preprocessing r l₂ a₂ (omega (arith, f, v)) h
              λ p' c' l' a' f' h'. block_comment_lem n c' a' f' h')
]
