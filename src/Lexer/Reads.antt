-- ===== src/Lexer/Reads.antt =====
-- What `lex_getch` reads: the text of a file after its trigraphs and digraphs, and the count of its
-- lines.
use gmqcc.Prelude.{
  ℕ, ◌^◌, ◌<◌, Bool, true, false, not, ◌&&◌, List, [], ◌∷◌, ◌++◌, map, Option, none, some, ◌≡◌,
  refl, ◌≢◌, inl, inr, ◌==◌, if◌then◌else◌, arith, Bool-cases, Option-cases,
}
use gmqcc.Lexer.{
  LexFile, Outcome, done, overrun, spent, lex_fgetc, lex_ungetch, lex_getch, lex_try_trigraph,
  lex_try_digraph, counts, up, down, end_of_file, read_byte, trigraph, digraph, opens_digraph,
}

-- The text before its end.
unfoldable pub cut : List ℕ → List ℕ
cut [] = []
cut (c ∷ cs) = if c == end_of_file then [] else c ∷ cut cs

-- A sequence's character, if it has one, in the place of what was read.
abbrev pub replaced : Option ℕ → List ℕ → List ℕ → List ℕ
replaced (some t) read rest = t ∷ rest
replaced none read rest = read ++ rest

-- The translation, on its own terms. A character that was read to see whether a sequence goes on,
-- and did not, is passed on as it stands: it begins no sequence.
unfoldable mutual
  pub translate : Bool → List ℕ → List ℕ
  translate nd [] = []
  translate nd (c ∷ cs) =
      if c == b'?'
      then question nd cs
      else if not nd && opens_digraph c
      then pair nd c cs
      else c ∷ translate nd cs

  pub question : Bool → List ℕ → List ℕ
  question nd [] = b'?' ∷ []
  question nd (c ∷ cs) = if c == b'?' then question_pair nd cs else b'?' ∷ c ∷ translate nd cs

  pub question_pair : Bool → List ℕ → List ℕ
  question_pair nd [] = b'?' ∷ b'?' ∷ []
  question_pair nd (c ∷ cs) = replaced (trigraph c) (b'?' ∷ b'?' ∷ c ∷ []) (translate nd cs)

  pub pair : Bool → ℕ → List ℕ → List ℕ
  pair nd c [] = c ∷ []
  pair nd c (d ∷ ds) = replaced (digraph c d) (c ∷ d ∷ []) (translate nd ds)

-- The characters that are still to be read.
unfoldable pub text : LexFile → List ℕ
unfolding cut translate
text l = cut (l.peek ++ translate l.nodigraphs (map (read_byte l.is_file) l.input))

-- `lex_getch` gives the next character of the text and counts its line.
abbrev pub Reads : LexFile → Outcome ℕ → Type 0
Reads l (done c l') =
    (text l ≡ (if c == end_of_file then [] else c ∷ text l'))
    × (l'.line ≡ (if counts c l then up l.line else l.line))
    × (l'.push_line ≡ l.push_line)
Reads l overrun = ⊥
Reads l spent = ⊥

abbrev with_input : LexFile → List ℕ → LexFile
with_input l bs = record l { peek = []; input = bs }

up-down : (n : ℕ) → n < 2 ^ 64 → down (up n) ≡ n
up-down n h = omega arith

trigraph-some : (c t : ℕ) → trigraph c ≡ some t → (t ≢ end_of_file) × (t ≢ b'\n') × (c ≢ b'\n')
trigraph-some c t h = ground arith

digraph-some :
    (c d t : ℕ)
    → digraph c d ≡ some t
    → ((t == end_of_file) ≡ false)
      × ((t == b'\n') ≡ false)
      × ((c == b'\n') ≡ false)
      × ((d == b'\n') ≡ false)
      × (opens_digraph c ≡ true)
digraph-some c d t h = ground arith

and_false : (a : Bool) → (a && false) ≡ false
and_false a = ground arith

fresh :
    (l : LexFile) (bs : List ℕ)
    → l.line < 2 ^ 64
    → Reads (with_input l bs) (lex_getch (with_input l bs))
unfolding lex_getch lex_fgetc lex_ungetch lex_try_trigraph lex_try_digraph text
fresh l [] h = ground arith
fresh l (b ∷ []) h = ground arith
fresh l (b ∷ c ∷ []) h = ground arith
fresh l (b ∷ c ∷ d ∷ ds) h = elim (Bool-cases (read_byte l.is_file b == b'?')) [
  | inl e ↦ elim (Bool-cases (read_byte l.is_file c == b'?')) [
    | inl f ↦ elim (Option-cases (trigraph (read_byte l.is_file d))) [
      | inl g ↦ ground arith
      | inr (t, g) ↦ ground (arith, trigraph-some (read_byte l.is_file d) t g)
    ]
    | inr f ↦ ground arith
  ]
  | inr e ↦ elim (Option-cases (digraph (read_byte l.is_file b) (read_byte l.is_file c))) [
    | inl g ↦ elim (Bool-cases (not l.nodigraphs && opens_digraph (read_byte l.is_file b))) [
      | inl f ↦ ground arith
      | inr f ↦ ground arith
    ]
    | inr (t, g) ↦
        let (p, q, u, r, o) = digraph-some (read_byte l.is_file b) (read_byte l.is_file c) t g in
        elim (Bool-cases l.nodigraphs) [
          | inl f ↦ ground arith
          | inr f ↦
              simp (e, f, g, o, u, r, and_false) (simp (e, f, g, o, p), simp (q, and_false), refl)
        ]
  ]
]

any :
    (p bs : List ℕ) (l : LexFile)
    → l.line < 2 ^ 64
    → Reads (record l { peek = p; input = bs }) (lex_getch (record l { peek = p; input = bs }))
unfolding lex_getch text
any [] bs l h = fresh l bs h
any (c ∷ p) bs l h = (refl, refl, refl)

pub lex_getch-Reads : (l : LexFile) → l.line < 2 ^ 64 → Reads l (lex_getch l)
lex_getch-Reads l h = any l.peek l.input l h
