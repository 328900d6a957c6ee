-- ===== src/Lexer/Bounds/Words.antt =====
-- The bounds along identifiers, strings and characters, for the preprocessor.
use gmqcc.Prelude.{
  ℕ, zero, suc, ◌+◌, ◌-◌, ◌≤◌, ◌<◌, Bool, true, false, not, ◌&&◌, List, Option, none, some, ◌≡◌,
  refl, inl, inr, ◌==◌, arith, Bool-cases,
}
use gmqcc.Fold.{ValueType}
use gmqcc.Lexer.{LexFile, lex_ungetch, end_of_file}
use gmqcc.Lexer.Chars.{Config, isident}
use gmqcc.Lexer.Frames.{take_ident, lex_finish_ident}
use gmqcc.Lexer.Words.{
  type_name, classified, identifier, continued, string_const, vector_or_char, char_const,
}
use gmqcc.Lexer.Bounds.{At, Held, Gives, weight, done_lem, bind_lem, ungetch_lem}
use gmqcc.Lexer.Bounds.Steps.{
  relax, same_bounds, getch_then, tokench_then, constval_then, kind_lem, Left,
}
use gmqcc.Lexer.Bounds.Comments.{in_pre-At}
use gmqcc.Lexer.Bounds.Strings.{lex_finish_string_lem}

ident-weight :
    (c : ℕ) (dot : Bool) → (not (c == end_of_file) && isident c dot) ≡ true → weight c ≡ 1
ident-weight c dot e = ground arith

take_ident_lem :
    (dot : Bool) (n : ℕ) {p m : ℕ} (c : ℕ) {l : LexFile}
    → Held 4 p c l
    → p < n
    → p ≤ m
    → Gives (λ u. At 5 0 m) (take_ident dot n c l)
unfolding take_ident
take_ident_lem dot zero c a f h = absurd (omega arith)
take_ident_lem dot (suc n) {p = p} {m = m} c a f h =
    elim (Bool-cases (not (c == end_of_file) && isident c dot)) [
      | inl e ↦
          let v = ident-weight c dot e in
          rw e (
            tokench_then a c _ λ l₁ a₁.
              getch_then (p - 1) _ a₁ (omega arith) (omega (arith, v)) λ next l₂ a₂.
                take_ident_lem dot n next a₂ (omega (arith, a₁.left, v, f)) (omega (arith, h)))
      | inr e ↦ rw e (put_lem c (relax a (omega arith) (omega (arith, h))))
    ]
  where
    put_lem : (c : ℕ) {l : LexFile} → Held 4 m c l → Gives (λ u. At 5 0 m) (lex_ungetch c l)
    put_lem c a = ungetch_lem c (omega arith) a

lex_finish_ident_lem :
    (dot : Bool) (n : ℕ) {x m : ℕ} {l : LexFile}
    → At 4 x m l
    → m < n
    → Gives (λ u. At 5 0 m) (lex_finish_ident n dot l)
unfolding lex_finish_ident
lex_finish_ident_lem dot n {m = m} a f =
    getch_then m _ a (omega arith) (omega arith)
      λ c l₁ a₁. take_ident_lem dot n c a₁ f (omega arith)

module _ (o : Config) {m : ℕ} where
  classified_lem :
      (t : Option ValueType) (qcc : Bool) (v : List ℕ) {l : LexFile}
      → At 5 0 m l
      → Gives (Left m) (classified t qcc v l)
  classified_lem (some t) qcc v a =
      constval_then a _ _ λ l₁ a₁. kind_lem _ a₁ (omega arith) (omega arith)
  classified_lem none qcc v a = kind_lem _ a (omega arith) (omega arith)

  pub identifier_lem :
      (n ch : ℕ) {x : ℕ} {l : LexFile} → At 4 x m l → m < n → Gives (Left m) (identifier o n ch l)
  unfolding identifier
  identifier_lem n ch a f = tokench_then a ch _ λ l₁ a₁.
      bind_lem _ _ (lex_finish_ident_lem false n a₁ f)
        λ u l₂ a₂. classified_lem (type_name l₂.tok.value) o.standard_qcc l₂.tok.value a₂

  vector_or_char_lem :
      (s : Option (ℕ × ℕ × ℕ)) (v : List ℕ) {l : LexFile}
      → At 5 0 m l
      → Gives (Left m) (vector_or_char o true s v l)
  vector_or_char_lem (some (x, y, z)) v a =
      constval_then a _ _ λ l₁ a₁. kind_lem _ a₁ (omega arith) (omega arith)
  vector_or_char_lem none v a =
      constval_then a _ _ λ l₁ a₁. kind_lem _ a₁ (omega arith) (omega arith)

  pub char_const_lem :
      (n : ℕ) {x : ℕ} {l : LexFile}
      → At 4 x m l
      → m + 1 < n
      → Gives (Left m) (char_const o n true l)
  unfolding char_const
  char_const_lem n a f = tokench_then a _ _ λ l₁ a₁.
      bind_lem _ _ (lex_finish_string_lem o n b'\'' {m = m} a₁ f (omega arith))
        λ t l₂ a₂. tokench_then a₂ _ _ λ l₃ a₃. vector_or_char_lem _ _ a₃

  continued_lem :
      (n kind : ℕ) {l : LexFile} → At 5 0 m l → 0 < n → Gives (Left m) (continued o n kind l)
  unfolding continued
  continued_lem zero kind a f = absurd (omega arith)
  continued_lem (suc n) kind a f = rw a.preprocesses (done_lem _ _ (in_pre-At a))

  pub string_const_lem :
      (n : ℕ) {x : ℕ} {l : LexFile}
      → At 4 x m l
      → m + 1 < n
      → Gives (Left m) (string_const o n true l)
  unfolding string_const
  string_const_lem n {l = l} a f =
      let b = same_bounds {l' = record l { nodigraphs = true }} a refl refl refl in
      tokench_then b _ _ λ l₁ a₁.
        bind_lem _ _ (lex_finish_string_lem o n b'"' {m = m} a₁ f (omega arith)) λ t l₂ a₂.
          tokench_then a₂ _ _ λ l₃ a₃.
            bind_lem _ _ (continued_lem n t a₃ (omega (arith, f))) λ kind l₄ a₄.
              kind_lem kind (same_bounds {l' = record l₄ { nodigraphs = false }} a₄ refl refl refl)
                (omega arith) (omega arith)
