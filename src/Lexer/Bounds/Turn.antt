-- ===== src/Lexer/Bounds/Turn.antt =====
-- `lex_do` for the preprocessor: it ends, keeps `peek` inside of its array, and makes progress.
use gmqcc.Prelude.{
  ℕ, zero, suc, ◌+◌, ◌-◌, ◌≤◌, ◌<◌, Bool, true, false, not, ◌&&◌, ◌||◌, ◌≡◌, refl, ◌∙◌, ◌⊎◌, inl,
  inr, ◌==◌, if◌then◌else◌, arith, Bool-cases,
}
use gmqcc.Lexer.{LexFile, Lex, Outcome, lex_getch, end_of_file, pure}
use gmqcc.Lexer.Chars.{Config, is_digit, isident_start, set_ttype, token_eof, token_fatal}
use gmqcc.Lexer.Operators.{one_of, early, operator_start}
use gmqcc.Lexer.Turn.{
  join_line, merge_lines, other_token, operator_token, token_at, is_white_token, lex_do,
}
use gmqcc.Lexer.Bounds.{At, Held, Gives, weight, pending, done_lem, bind_lem, map_lem, getch_lem}
use gmqcc.Lexer.Bounds.Steps.{
  relax, same_bounds, getch_from, ungetch_then, tokench_then, token_new_then, kind_lem, Left,
  weight_char, set_ttype_lem,
}
use gmqcc.Lexer.Bounds.Numbers.{lex_finish_digit_lem}
use gmqcc.Lexer.Bounds.Blanks.{debt, IsWhite, char-weight}
use gmqcc.Lexer.Bounds.Skipping.{Starts, lex_skipwhite_lem}
use gmqcc.Lexer.Bounds.Words.{identifier_lem, string_const_lem, char_const_lem}
use gmqcc.Lexer.Bounds.Operators.{
  whole_lem, dot_lem, operator_lem, product_operator_lem, single_char_lem,
}

module _ (o : Config) (n : ℕ) {m : ℕ} (f : m + 1 < n) where
  other_token_lem :
      (ch : ℕ) {x : ℕ} {l : LexFile} → At 4 x m l → Gives (Left m) (other_token o n true ch l)
  unfolding other_token
  other_token_lem ch a = elim (Bool-cases (isident_start ch)) [
    | inl e ↦ rw e (identifier_lem o n ch a (omega (arith, f)))
    | inr e ↦ elim (Bool-cases (ch == b'"')) [
      | inl g ↦ rw (e, g) (string_const_lem o n a f)
      | inr g ↦ elim (Bool-cases (ch == b'\'')) [
        | inl k ↦ rw (e, g, k) (char_const_lem o n a f)
        | inr k ↦ elim (Bool-cases (is_digit ch)) [
          | inl i ↦
              rw (e, g, k, i)
                (bind_lem _ _
                  (lex_finish_digit_lem o n ch {m = m} (relax a (omega arith) (omega arith))
                    (omega (arith, f)))
                  λ kind l₁ a₁. kind_lem kind a₁ (omega arith) (omega arith))
          | inr i ↦ rw (e, g, k, i) (whole_lem ch ch a)
        ]
      ]
    ]
  ]

  operator_token_lem :
      (k : LexFile) (ch : ℕ) {x : ℕ} {l : LexFile}
      → k.preprocessing ≡ true
      → At 4 x m l
      → Gives (Left m) (operator_token o n k ch l)
  unfolding operator_token
  operator_token_lem k ch p a = elim (Bool-cases (ch == b'.')) [
    | inl e ↦ rw e (dot_lem o n (omega (arith, f)) k.noops a)
    | inr e ↦ elim (Bool-cases (k.noops && one_of early ch)) [
      | inl g ↦ rw (e, g) (whole_lem ch ch a)
      | inr g ↦ elim (Bool-cases (ch == b',')) [
        | inl h ↦ rw (e, g, h) (whole_lem ch _ a)
        | inr h ↦ elim (Bool-cases (one_of operator_start ch)) [
          | inl i ↦ rw (e, g, h, i) (operator_lem o n (omega (arith, f)) k.preprocessing ch a)
          | inr i ↦ elim (Bool-cases (ch == b'*' || ch == b'/')) [
            | inl j ↦ rw (e, g, h, i, j) (product_operator_lem ch a)
            | inr j ↦ elim (Bool-cases (ch == b'%')) [
              | inl q ↦ rw (e, g, h, i, j, q) (whole_lem ch _ a)
              | inr q ↦ rw (e, g, h, i, j, q, p) (other_token_lem ch a)
            ]
          ]
        ]
      ]
    ]
  ]

-- The character behind a backslash, past a carriage return.
past_return :
    (first : ℕ) {m : ℕ} {l : LexFile}
    → Held 3 m first l
    → Gives (Held 3 m) ((if first == b'\r' then lex_getch else pure first) l)
past_return first {m = m} {l = l} a = elim (Bool-cases (first == b'\r')) [
  | inl e ↦ rw e (getch_lem (omega arith) (relax a (omega arith) (omega arith)))
  | inr e ↦ rw e (done_lem _ _ a)
]

join_line_lem :
    {m : ℕ} {l : LexFile}
    → At 4 0 m l
    → Gives (λ joined l'. At 4 (if joined then 1 else 0) m l') (join_line l)
unfolding join_line
join_line_lem {m = m} a = getch_from {k = 3} {m = m} _ (omega arith) a λ first l₁ a₁.
    bind_lem _ _ (past_return first a₁) λ next l₂ a₂. elim (Bool-cases (next == b'\n')) [
      | inl e ↦
          let v = char-weight next b'\n' e (omega arith) in
          rw e
            (tokench_then a₂ _ _ λ l₃ a₃. done_lem _ _ (relax a₃ (omega arith) (omega (arith, v))))
      | inr e ↦ rw e (ungetch_then next _ (omega arith) a₂ λ u l₃ a₃. done_lem _ _ a₃)
    ]

-- A backslash is no token of white space, and is given up.
not_white : (b : Bool) (t : ℕ) → IsWhite t → (b && t == b'\\') ≡ false
not_white b t (inl e) = rw e (ground arith)
not_white b t (inr e) = rw e (ground arith)

backslash-weight : (b : Bool) (t : ℕ) → (b && t == b'\\') ≡ true → weight t ≡ 1
backslash-weight true t e = char-weight t b'\\' e (omega arith)
backslash-weight false t e = cc e

behind_backslash :
    (b : Bool) {m : ℕ} {l : LexFile} (t : ℕ)
    → (b && t == b'\\') ≡ true
    → Starts 1 m t l
    → At 4 1 m l
behind_backslash b t e (inl (i, a)) = cc (e, not_white b t i)
behind_backslash b t e (inr a) = relax a (omega arith) (omega (arith, backslash-weight b t e))

Starts-le : {m m' t : ℕ} {l : LexFile} → Starts 1 m t l → m ≤ m' → Starts 1 m' t l
Starts-le (inl (i, a)) h = inl (i, relax a (omega arith) (omega (arith, h)))
Starts-le (inr a) h = inr (relax a (omega arith) (omega (arith, h)))

-- Behind a backslash, with the next turns as `again`.
joined_lem :
    (o : Config) (n : ℕ) {m m' : ℕ} (joined : Bool) (l : LexFile)
    → At 4 (if joined then 1 else 0) (m - 1) l
    → 1 ≤ m
    → m ≤ m'
    → (2 ≤ m → At 5 0 (m - 2) l → Gives (Starts 1 m') (merge_lines o n true l))
    → Gives (Starts 1 m') ((if joined then merge_lines o n true else pure b'\\') l)
joined_lem o n true l a k g again =
    again (omega (arith, a.left)) (relax a (omega arith) (omega (arith, a.left)))
joined_lem o n false l a k g again =
    done_lem _ _ (inr (relax a (omega arith) (omega (arith, k, g))))

merge_lines_lem :
    (o : Config) (n : ℕ) {p m m' : ℕ} (w : Bool) {l : LexFile}
    → At 5 0 p l
    → p + 1 ≤ m + debt w
    → m + 1 < n
    → m ≤ m'
    → Gives (Starts 1 m') (merge_lines o n w l)
unfolding merge_lines
merge_lines_lem o zero w a h f g = absurd (omega arith)
merge_lines_lem o (suc n) {m = m} {m' = m'} w a h f g =
    bind_lem _ _ (lex_skipwhite_lem o (suc n) {d = 1} {m = m} {m' = m} w a h f (omega arith))
      λ t l₁ s. elim (Bool-cases (l₁.mergelines && t == b'\\')) [
        | inr e ↦ rw e (done_lem _ _ (Starts-le s g))
        | inl e ↦
            let b = behind_backslash l₁.mergelines t e s in
            rw e (
              bind_lem _ _
                (join_line_lem {m = m - 1} (relax b (omega arith) (omega (arith, b.left))))
                λ joined l₂ a₂. joined_lem o n joined l₂ a₂ (omega (arith, b.left)) g λ k a₃.
                  merge_lines_lem o n {p = m - 2} {m = m - 1} true a₃ (omega (arith, k))
                    (omega (arith, f, k)) (omega (arith, g)))
      ]

-- What is left behind a token, by which the next one starts later, if there is one.
abbrev pub Advanced : ℕ → ℕ → LexFile → Type 0
Advanced m t l = At 5 0 m l × ((t ≡ token_eof) ⊎ ((t ≡ token_fatal) ⊎ (pending l < m)))

further : {m : ℕ} (x : Outcome ℕ) → 1 ≤ m → Gives (Left (m - 1)) x → Gives (Advanced m) x
further x h g =
    map_lem x g λ t l a. (relax a (omega arith) (omega arith), inr (inr (omega (arith, a.left, h))))

no_command : (ch : ℕ) (b : Bool) → b ≡ true → (ch == b'$' && not b) ≡ false
no_command ch b e = rw e (ground arith)

ends_lem :
    {m : ℕ} {l : LexFile} (t : ℕ)
    → At 5 0 m l
    → (t ≡ token_eof) ⊎ (t ≡ token_fatal)
    → Gives (Advanced m) (set_ttype t l)
ends_lem t a p = map_lem _ (set_ttype_lem a t) λ t' l' (same, a'). (a', kind_of l' p same)
  where
    kind_of :
        {m t t' : ℕ} (l : LexFile)
        → (t ≡ token_eof) ⊎ (t ≡ token_fatal)
        → t' ≡ t
        → (t' ≡ token_eof) ⊎ ((t' ≡ token_fatal) ⊎ (pending l < m))
    kind_of l (inl e) same = inl (same ∙ e)
    kind_of l (inr e) same = inr (inl (same ∙ e))

token_at_lem :
    (o : Config) (n ch : ℕ) (next : Lex ℕ) {m : ℕ} {l : LexFile}
    → At 4 (weight ch) m l
    → m + 1 < n
    → Gives (Advanced m) (token_at o n ch next l)
unfolding token_at
token_at_lem o n ch next {m = m} {l = l} a f =
    let c : At 5 0 m l = relax a (omega arith) (omega arith) in
    elim (Bool-cases l.eof) [
      | inl e ↦ rw e (ends_lem token_fatal (same_bounds c refl refl refl) (inr refl))
      | inr e ↦ elim (Bool-cases (ch == end_of_file)) [
        | inl g ↦ rw (e, g) (ends_lem token_eof (same_bounds c refl refl refl) (inl refl))
        | inr g ↦
            let v = weight_char ch g in
            let b : At 4 0 (m - 1) l = relax a (omega arith) (omega (arith, v, a.left)) in
            rw (e, g, no_command ch l.preprocessing a.preprocesses)
              (further _ (omega (arith, a.left, v)) (
                single_char_lem l.noops ch _ (same_bounds b refl refl refl) (
                  operator_token_lem o n (omega (arith, f)) _ ch a.preprocesses
                    (same_bounds b refl refl refl))))
      ]
    ]

and_true : {a : Bool} (b : Bool) → a ≡ true → (a && b) ≡ b
and_true b e = rw e

white-weight : (t : ℕ) → is_white_token t ≡ true → weight t ≡ 1
white-weight t e = ground arith

IsWhite-is_white_token : (t : ℕ) → IsWhite t → is_white_token t ≡ true
IsWhite-is_white_token t (inl e) = rw e
IsWhite-is_white_token t (inr e) = rw e (ground arith)

white_token : {m : ℕ} (t : ℕ) {l : LexFile} → is_white_token t ≡ true → Starts 1 m t l → At 5 1 m l
white_token t e (inl (i, a)) = a
white_token t e (inr a) = relax a (omega arith) (omega (arith, white-weight t e))

other_start :
    {m : ℕ} (t : ℕ) {l : LexFile} → is_white_token t ≡ false → Starts 1 m t l → At 4 (weight t) m l
other_start t e (inl (i, a)) = cc (e, IsWhite-is_white_token t i)
other_start t e (inr a) = relax a (omega arith) (omega arith)

pub Starts-preprocesses : {d m t : ℕ} {l : LexFile} → Starts d m t l → l.preprocessing ≡ true
Starts-preprocesses (inl (i, a)) = a.preprocesses
Starts-preprocesses (inr a) = a.preprocesses

pub lex_do_lem :
    (o : Config) (n : ℕ) {m : ℕ} {l : LexFile}
    → At 5 0 m l
    → m + 1 < n
    → Gives (Advanced m) (lex_do o n l)
unfolding lex_do
lex_do_lem o zero a f = absurd (omega arith)
lex_do_lem o (suc n) {m = m} a f = token_new_then a _ λ l₁ a₁.
    bind_lem _ _ (merge_lines_lem o (suc n) {m = m} {m' = m} false a₁ (omega arith) f (omega arith))
      λ t l₂ s.
        let p = and_true (is_white_token t) (Starts-preprocesses s) in
        elim (Bool-cases (is_white_token t)) [
          | inl e ↦
              let b = white_token t e s in
              rw (p, e)
                (further _ (omega (arith, b.left))
                  (kind_lem t b (omega arith) (omega (arith, b.left))))
          | inr e ↦ rw (p, e) (token_at_lem o (suc n) t _ (other_start t e s) f)
        ]
