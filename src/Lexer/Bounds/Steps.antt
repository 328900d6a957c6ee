-- ===== src/Lexer/Bounds/Steps.antt =====
-- The bounds along the primitive calls of a chain.
use gmqcc.Prelude.{ℕ, suc, ◌+◌, ◌≤◌, ◌<◌, true, false, ◌≡◌, refl, ◌==◌, arith}
use gmqcc.Lexer.{LexFile, LexError, ConstVal, Lex, lex_ungetch, lex_getch, end_of_file, and_then}
use gmqcc.Lexer.Chars.{lex_tokench, lex_token_new, lexerror, set_ttype, set_constval}
use gmqcc.Lexer.Bounds.{
  At, Held, Gives, weight, pending, done_lem, bind_lem, getch_lem, ungetch_lem,
}

pub relax :
    {k k' x x' m m' : ℕ} {l : LexFile} → At k x m l → k ≤ k' → x' + m ≤ m' + x → At k' x' m' l
relax a h h' = record {
  preprocesses = a.preprocesses;
  few = omega (arith, a.few, h);
  left = omega (arith, a.left, h');
}

-- Fields that the bounds do not read.
pub same_bounds :
    {k x m : ℕ} {l l' : LexFile}
    → At k x m l
    → l'.preprocessing ≡ l.preprocessing
    → l'.peek ≡ l.peek
    → l'.input ≡ l.input
    → At k x m l'
unfolding pending
same_bounds a p q r = record {
  preprocesses = rw p a.preprocesses;
  few = rw q a.few;
  left = rw (q, r) a.left;
}

pub weight-eof : (c : ℕ) → (c == end_of_file) ≡ true → weight c ≡ 0
weight-eof c e = rw e

pub weight_char : (c : ℕ) → (c == end_of_file) ≡ false → weight c ≡ 1
weight_char c e = rw e

module _ {B : Type 0} {Q : B → LexFile → Type 0} {k m : ℕ} {l : LexFile} where
  pub getch_from :
      (f : ℕ → Lex B)
      → 2 ≤ k
      → At (suc k) 0 m l
      → ((c : ℕ) (l' : LexFile) → Held k m c l' → Gives Q (f c l'))
      → Gives Q (and_then (lex_getch l) f)
  getch_from f h a q = bind_lem (lex_getch l) f (getch_lem h a) q

  -- The character in hand, of weight `x`, is given up.
  pub getch_then :
      {x : ℕ} (m' : ℕ) (f : ℕ → Lex B)
      → At k x m l
      → k ≤ 5
      → m ≤ m' + x
      → ((c : ℕ) (l' : LexFile) → Held 4 m' c l' → Gives Q (f c l'))
      → Gives Q (and_then (lex_getch l) f)
  getch_then m' f a h h' q =
      bind_lem (lex_getch l) f (getch_lem (omega arith) (relax a h (omega (arith, h')))) q

  pub ungetch_then :
      (c : ℕ) (f : Unit {0} → Lex B)
      → k < 256
      → Held k m c l
      → ((u : Unit {0}) (l' : LexFile) → At (suc k) 0 m l' → Gives Q (f u l'))
      → Gives Q (and_then (lex_ungetch c l) f)
  ungetch_then c f h a q = bind_lem (lex_ungetch c l) f (ungetch_lem c h a) q

module _ {k x m : ℕ} {l : LexFile} (a : At k x m l) where
  pub set_ttype_lem : (t : ℕ) → Gives (λ t' l'. (t' ≡ t) × At k x m l') (set_ttype t l)
  unfolding set_ttype
  set_ttype_lem t = done_lem _ _ (refl, same_bounds a refl refl refl)

  module _ {B : Type 0} {Q : B → LexFile → Type 0} where
    pub tokench_then :
        (c : ℕ) (f : Unit {0} → Lex B)
        → ((l' : LexFile) → At k x m l' → Gives Q (f tt l'))
        → Gives Q (and_then (lex_tokench c l) f)
    unfolding lex_tokench
    tokench_then c f q = q _ (same_bounds a refl refl refl)

    pub lexerror_then :
        (e : LexError) (f : Unit {0} → Lex B)
        → ((l' : LexFile) → At k x m l' → Gives Q (f tt l'))
        → Gives Q (and_then (lexerror e l) f)
    unfolding lexerror
    lexerror_then e f q = q _ (same_bounds a refl refl refl)

    pub constval_then :
        (v : ConstVal) (f : Unit {0} → Lex B)
        → ((l' : LexFile) → At k x m l' → Gives Q (f tt l'))
        → Gives Q (and_then (set_constval v l) f)
    unfolding set_constval
    constval_then v f q = q _ (same_bounds a refl refl refl)

    pub token_new_then :
        (f : Unit {0} → Lex B)
        → ((l' : LexFile) → At k x m l' → Gives Q (f tt l'))
        → Gives Q (and_then (lex_token_new l) f)
    unfolding lex_token_new
    token_new_then f q = q _ (same_bounds a refl refl refl)

-- A token that ends a call, whatever its kind.
abbrev pub Left : ℕ → ℕ → LexFile → Type 0
Left m t l = At 5 0 m l

module _ {k x m : ℕ} {l : LexFile} (t : ℕ) where
  pub kind_lem : {m' : ℕ} → At k x m l → k ≤ 5 → m ≤ m' + x → Gives (Left m') (set_ttype t l)
  unfolding set_ttype
  kind_lem a h h' = done_lem _ _ (relax (same_bounds a refl refl refl) h (omega (arith, h')))

  pub error_lem :
      {m' : ℕ} (e : LexError)
      → At k x m l
      → k ≤ 5
      → m ≤ m' + x
      → Gives (Left m') (and_then (lexerror e l) (λ _. set_ttype t))
  unfolding set_ttype lexerror
  error_lem e a h h' = done_lem _ _ (relax (same_bounds a refl refl refl) h (omega (arith, h')))
