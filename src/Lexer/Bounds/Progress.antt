-- ===== src/Lexer/Bounds/Progress.antt =====
-- The preprocessor's tokens up to the end of a file: `lex_do` is called until it returns `TOKEN_EOF`
-- or `TOKEN_FATAL`.
use gmqcc.Prelude.{
  ℕ, zero, suc, ◌+◌, ◌-◌, ◌≤◌, ◌<◌, Bool, true, false, ◌||◌, List, [], ◌∷◌, ◌≡◌, refl, ◌⊎◌, inl,
  inr, ◌==◌, if◌then◌else◌, length, arith, Bool-cases,
}
use gmqcc.Lexer.{LexFile, Lex, Outcome, done, overrun, spent, pure, out_of_fuel, ◌>>=◌}
use gmqcc.Lexer.Chars.{Config, token_eof, token_fatal}
use gmqcc.Lexer.Turn.{lex_do}
use gmqcc.Lexer.Bounds.{At, Gives, pending, done_lem, bind_lem}
use gmqcc.Lexer.Bounds.Steps.{relax}
use gmqcc.Lexer.Bounds.Turn.{lex_do_lem}

-- A result that a call is known to have.
pub given :
    {A : Type 0} {Q : A → LexFile → Type 0} (o : Outcome A)
    → Gives Q o
    → (a : A) × (l : LexFile) × (o ≡ done a l) × Q a l
given (done a l) g = (a, l, refl, g.result)
given overrun g = absurd g.result
given spent g = absurd g.result

-- A file of the preprocessor with at most five characters put back.
unfoldable pub IsReady : LexFile → Type 0
IsReady l = (l.preprocessing ≡ true) × (length l.peek ≤ 5)

ready : {l : LexFile} → IsReady l → At 5 0 (pending l) l
unfolding IsReady
ready (p, q) = record { preprocesses = p; few = q; left = omega arith }

-- `lex_do` returns a token, and keeps the file ready for the next call. Unless the token is
-- `TOKEN_EOF` or `TOKEN_FATAL`, less is left behind it.
pub lex_do-advances :
    (o : Config) (n : ℕ) (l : LexFile)
    → IsReady l
    → pending l + 1 < n
    → (t : ℕ) × (l' : LexFile) × (lex_do o n l ≡ done t l')
      × IsReady l'
      × ((t ≡ token_eof) ⊎ ((t ≡ token_fatal) ⊎ (pending l' < pending l)))
unfolding IsReady
lex_do-advances o n l r h =
    let (t, l', e, (a, p)) = given (lex_do o n l) (lex_do_lem o n (ready r) h) in
    (t, l', e, (a.preprocesses, a.few), p)

abbrev pub ends_tokens : ℕ → Bool
ends_tokens t = t == token_eof || t == token_fatal

-- The tokens of a file, of which there are less than `k`.
unfoldable pub lex_all : Config → ℕ → ℕ → Lex (List ℕ)
lex_all o n zero = out_of_fuel
lex_all o n (suc k) = do
  t ← lex_do o n
  if ends_tokens t then pure [] else (do ts ← lex_all o n k; pure (t ∷ ts))

abbrev Counted : ℕ → List ℕ → LexFile → Type 0
Counted m ts l = At 5 0 m l × (length ts + pending l ≤ m)

left_less :
    {m t : ℕ} (l : LexFile)
    → ends_tokens t ≡ false
    → (t ≡ token_eof) ⊎ ((t ≡ token_fatal) ⊎ (pending l < m))
    → pending l < m
left_less l e p = ground arith

lex_all_lem :
    (o : Config) (n k : ℕ) {m : ℕ} {l : LexFile}
    → At 5 0 m l
    → m < k
    → m + 1 < n
    → Gives (Counted m) (lex_all o n k l)
unfolding lex_all
lex_all_lem o n zero a h f = absurd (omega arith)
lex_all_lem o n (suc k) {m = m} a h f = bind_lem _ _ (lex_do_lem o n a f) λ t l₁ (a₁, p).
    elim (Bool-cases (ends_tokens t)) [
      | inl e ↦ rw e (done_lem _ _ (a₁, omega (arith, a₁.left)))
      | inr e ↦
          let q = left_less l₁ e p in
          rw e (
            bind_lem _ _
              (lex_all_lem o n k {m = m - 1}
                (record { preprocesses = a₁.preprocesses; few = a₁.few; left = omega (arith, q) })
                (omega (arith, h, q)) (omega (arith, f)))
              λ ts l₂ (a₂, c).
                done_lem _ _ (relax a₂ (omega arith) (omega arith), omega (arith, c, q)))
    ]

-- The preprocessor reaches the end of every file, with no more tokens than characters.
pub lex_all_ends :
    (o : Config) (n k : ℕ) (l : LexFile)
    → IsReady l
    → pending l < k
    → pending l + 1 < n
    → (ts : List ℕ) × (l' : LexFile) × (lex_all o n k l ≡ done ts l')
      × IsReady l'
      × (length ts + pending l' ≤ pending l)
unfolding IsReady
lex_all_ends o n k l r h f =
    let (ts, l', e, (a, c)) = given (lex_all o n k l) (lex_all_lem o n k (ready r) h f) in
    (ts, l', e, (a.preprocesses, a.few), c)
