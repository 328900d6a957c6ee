-- ===== src/Lexer/Whole.antt =====
-- A file that is read to its end by `lex_getch`.
use gmqcc.Prelude.{
  ℕ, zero, suc, ◌+◌, ◌%◌, ◌^◌, ◌<◌, false, List, [], ◌∷◌, ◌≡◌, refl, inl, inr, ◌==◌, if◌then◌else◌,
  length, arith, Bool-cases,
}
use gmqcc.Lexer.{
  LexFile, Lex, Outcome, done, overrun, spent, lex_getch, end_of_file, out_of_fuel, pure, ◌>>=◌,
}
use gmqcc.Lexer.Reads.{Reads, text, lex_getch-Reads}

-- The characters up to the end, which is among the first `n`.
unfoldable pub read_all : ℕ → Lex (List ℕ)
read_all zero = out_of_fuel
read_all (suc n) = do
  c ← lex_getch
  if c == end_of_file then pure [] else (do cs ← read_all n; pure (c ∷ cs))

unfoldable pub line_ends : List ℕ → ℕ
line_ends [] = 0
line_ends (c ∷ cs) = (if c == b'\n' then 1 else 0) + line_ends cs

-- The lines that the characters are counted as.
abbrev pub lines_of : LexFile → List ℕ → ℕ
lines_of l cs = if l.push_line == 0 then line_ends cs else 0

abbrev pub ReadsAll : LexFile → Outcome (List ℕ) → Type 0
ReadsAll l o =
    (l' : LexFile) × (o ≡ done (text l) l') × (l'.line ≡ (l.line + lines_of l (text l)) % 2 ^ 64)

one_more :
    (n : ℕ) (l l' : LexFile) (c : ℕ)
    → lex_getch l ≡ done c l'
    → Reads l (done c l')
    → (c == end_of_file) ≡ false
    → ReadsAll l' (read_all n l')
    → ReadsAll l (read_all (suc n) l)
unfolding read_all line_ends
one_more n l l' c e (t, ln, pl) b (m, e', ln') =
    let t' : text l ≡ c ∷ text l' = rw t (rw b) in
    (m, rw (e, b, t') (rw e'), rw (ln', t', pl) (rw ln (ground arith)))

step_text :
    (n : ℕ) (l : LexFile) (o : Outcome ℕ)
    → lex_getch l ≡ o
    → Reads l o
    → l.line < 2 ^ 64
    → length (text l) < suc n
    → ((l' : LexFile) → l'.line < 2 ^ 64 → length (text l') < n → ReadsAll l' (read_all n l'))
    → ReadsAll l (read_all (suc n) l)
unfolding read_all line_ends
step_text n l overrun e r h f all = absurd r
step_text n l spent e r h f all = absurd r
step_text n l (done c l') e (t, ln, pl) h f all = elim (Bool-cases (c == end_of_file)) [
  | inl b ↦ let t' : text l ≡ [] = rw t (rw b) in (l', rw (e, b, t'), rw (ln, t') (ground arith))
  | inr b ↦
      let t' : text l ≡ c ∷ text l' = rw t (rw b) in
      let f' : length (c ∷ text l') < suc n = rw t' at f in
      one_more n l l' c e (t, ln, pl) b (all l' (rw ln (ground arith)) (omega (arith, f')))
]

pub read_all-text :
    (n : ℕ) (l : LexFile) → l.line < 2 ^ 64 → length (text l) < n → ReadsAll l (read_all n l)
read_all-text zero l h f = absurd (omega arith)
read_all-text (suc n) l h f =
    step_text n l (lex_getch l) refl (lex_getch-Reads l h) h f (read_all-text n)
