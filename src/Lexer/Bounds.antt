-- ===== src/Lexer/Bounds.antt =====
-- How many characters a lexed file has left, and how many of them are put back: the bounds that make
-- the loops of the lexer end and keep `peek` inside of its array.
pub mod Steps
pub mod Numbers
pub mod Blanks
pub mod Comments
pub mod Skipping
pub mod Strings
pub mod Words
pub mod Operators
pub mod Turn
pub mod Progress
use gmqcc.Prelude.{
  ℕ, zero, suc, ◌+◌, ◌-◌, ◌%◌, ◌^◌, ◌≤◌, ◌<◌, Bool, true, false, not, ◌&&◌, List, [], ◌∷◌, ◌++◌,
  Option, none, some, ◌≡◌, refl, inl, inr, ltb, leb, lt→ltb, ◌==◌, if◌then◌else◌, length, arith,
  Bool-cases, Option-cases,
}
use gmqcc.Lexer.{
  LexFile, Lex, Outcome, done, overrun, spent, and_then, lex_fgetc, lex_ungetch, lex_getch,
  lex_try_trigraph, lex_try_digraph, counts, up, down, end_of_file, read_byte, trigraph, digraph,
  opens_digraph,
}

-- `EOF` can be read again and again, and is no progress.
abbrev pub weight : ℕ → ℕ
weight c = if c == end_of_file then 0 else 1

abbrev pub weights : List ℕ → ℕ
weights [] = 0
weights (c ∷ cs) = weight c + weights cs

unfoldable pub pending : LexFile → ℕ
pending l = weights l.peek + length l.input

-- A file of the preprocessor with at most `k` characters put back and, besides `x` in hand, at most
-- `m` left.
pub record At (k x m : ℕ) (l : LexFile) : Type 0 where
  pub preprocesses : l.preprocessing ≡ true
  pub few : length l.peek ≤ k
  pub left : pending l + x ≤ m

abbrev pub Result : {A : Type 0} → (A → LexFile → Type 0) → Outcome A → Type 0
Result Q (done a l) = Q a l
Result Q overrun = ⊥
Result Q spent = ⊥

-- The call has a result, and `Q` holds of it.
pub record Gives {A : Type 0} (Q : A → LexFile → Type 0) (o : Outcome A) : Type 0 where
  pub result : Result Q o

pub done_lem :
    {A : Type 0} {Q : A → LexFile → Type 0} (a : A) (l : LexFile) → Q a l → Gives Q (done a l)
done_lem a l q = record { result = q }

pub bind_lem :
    {A B : Type 0} {P : A → LexFile → Type 0} {Q : B → LexFile → Type 0} (o : Outcome A)
    (f : A → Lex B)
    → Gives P o
    → ((a : A) (l : LexFile) → P a l → Gives Q (f a l))
    → Gives Q (and_then o f)
bind_lem (done a l) f p q = q a l p.result
bind_lem overrun f p q = absurd p.result
bind_lem spent f p q = absurd p.result

pub map_lem :
    {A : Type 0} {P Q : A → LexFile → Type 0} (o : Outcome A)
    → Gives P o
    → ((a : A) (l : LexFile) → P a l → Q a l)
    → Gives Q o
map_lem (done a l) p q = done_lem a l (q a l p.result)
map_lem overrun p q = absurd p.result
map_lem spent p q = absurd p.result

pub test_lem :
    {A : Type 0} {Q : A → LexFile → Type 0} (b : Bool) (x y : Lex A) (l : LexFile)
    → ((b ≡ true) → Gives Q (x l))
    → ((b ≡ false) → Gives Q (y l))
    → Gives Q ((if b then x else y) l)
test_lem true x y l p q = p refl
test_lem false x y l p q = q refl

-- A character in hand.
abbrev pub Held : ℕ → ℕ → ℕ → LexFile → Type 0
Held k m c l = At k (weight c) m l

abbrev with_input : LexFile → List ℕ → LexFile
with_input l bs = record l { peek = []; input = bs }

abbrev Fits : ℕ → ℕ → ℕ → LexFile → Type 0
Fits k m c l = (l.preprocessing ≡ true) × (length l.peek ≤ k) × (pending l + weight c ≤ m)

fresh :
    (l : LexFile) (bs : List ℕ) (k : ℕ)
    → 2 ≤ k
    → l.preprocessing ≡ true
    → Result (Fits k (length bs)) (lex_getch (with_input l bs))
unfolding lex_getch lex_fgetc lex_ungetch lex_try_trigraph lex_try_digraph pending
fresh l [] k h p = ground arith
fresh l (b ∷ []) k h p = ground arith
fresh l (b ∷ c ∷ []) k h p = ground arith
fresh l (b ∷ c ∷ d ∷ ds) k h p = elim (Bool-cases (read_byte l.is_file b == b'?')) [
  | inl e ↦ elim (Bool-cases (read_byte l.is_file c == b'?')) [
    | inl f ↦ elim (Option-cases (trigraph (read_byte l.is_file d))) [
      | inl g ↦ rw (e, f, g) (ground arith)
      | inr (t, g) ↦ rw (e, f, g) (ground arith)
    ]
    | inr f ↦ ground arith
  ]
  | inr e ↦ elim (Option-cases (digraph (read_byte l.is_file b) (read_byte l.is_file c))) [
    | inl g ↦ rw (e, g) (ground arith)
    | inr (t, g) ↦ rw (e, g) (ground arith)
  ]
]

weaker : {k m n : ℕ} (o : Outcome ℕ) → Result (Fits k m) o → m ≤ n → Gives (Held k n) o
weaker (done c l) (p, q, r) h =
    done_lem _ _ (record { preprocesses = p; few = q; left = omega (arith, r, h) })
weaker overrun r h = absurd r
weaker spent r h = absurd r

any :
    (p bs : List ℕ) (l : LexFile) (k m : ℕ)
    → 2 ≤ k
    → At (suc k) 0 m (record l { peek = p; input = bs })
    → Gives (Held k m) (lex_getch (record l { peek = p; input = bs }))
unfolding lex_getch pending
any [] bs l k m h a =
    weaker (lex_getch (with_input l bs)) (fresh l bs k h a.preprocesses) (omega (arith, a.left))
any (c ∷ cs) bs l k m h a = done_lem _ _ (record {
  preprocesses = a.preprocesses;
  few = omega (arith, a.few);
  left = omega (arith, a.left);
})

pub getch_lem : {l : LexFile} {k m : ℕ} → 2 ≤ k → At (suc k) 0 m l → Gives (Held k m) (lex_getch l)
getch_lem {l} {k} {m} h a = any l.peek l.input l k m h a

pub ungetch_lem :
    {l : LexFile} {k m : ℕ} (c : ℕ)
    → k < 256
    → At k (weight c) m l
    → Gives (λ u l'. At (suc k) 0 m l') (lex_ungetch c l)
unfolding lex_ungetch pending
ungetch_lem {l} c h a = rw (lt→ltb (length l.peek) 256 (omega (arith, h, a.few))) (
    done_lem _ _ (record {
      preprocesses = a.preprocesses;
      few = omega (arith, a.few);
      left = omega (arith, a.left);
    }))
