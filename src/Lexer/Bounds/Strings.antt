-- ===== src/Lexer/Bounds/Strings.antt =====
-- The bounds along `lex_finish_string`, for the preprocessor.
use gmqcc.Prelude.{ℕ, zero, suc, ◌+◌, ◌-◌, ◌≤◌, ◌<◌, true, inl, inr, ◌==◌, arith, Bool-cases}
use gmqcc.Lexer.{LexFile, LexError, Lex, end_of_file}
use gmqcc.Lexer.Chars.{Config, token_error}
use gmqcc.Lexer.Strings.{ends_file, string_turn, string_loop, lex_finish_string}
use gmqcc.Lexer.Bounds.{At, Held, Gives, weight, done_lem}
use gmqcc.Lexer.Bounds.Steps.{
  relax, getch_from, ungetch_then, tokench_then, lexerror_then, kind_lem, Left, weight_char,
}
use gmqcc.Lexer.Bounds.Comments.{in_pre-At}

ends_file_lem :
    (e : LexError) {x p m : ℕ} {l : LexFile} → At 4 x p l → p ≤ m → Gives (Left m) (ends_file e l)
ends_file_lem e {p = p} a h = lexerror_then a e _ λ l₁ a₁.
    ungetch_then {k = 4} {m = p} end_of_file _ (omega arith) (relax a₁ (omega arith) (omega arith))
      λ u l₂ a₂. kind_lem token_error a₂ (omega arith) (omega (arith, h))

string_turn_lem :
    (o : Config) (n ch texttype : ℕ) (again : ℕ → ℕ → Lex ℕ) {p m : ℕ} {l : LexFile}
    → Held 3 p ch l
    → p ≤ m
    → ((c t : ℕ) (l' : LexFile) → At 4 (weight c) p l' → Gives (Left m) (again c t l'))
    → Gives (Left m) (string_turn o n true ch texttype again l)
unfolding string_turn
string_turn_lem o n ch texttype again {p = p} a h q = elim (Bool-cases (ch == b'\\')) [
  | inr e ↦
      rw e (tokench_then a ch _ λ l₁ a₁. q ch texttype l₁ (relax a₁ (omega arith) (omega arith)))
  | inl e ↦ rw e (
      tokench_then a ch _ λ l₁ a₁.
        getch_from {k = 3} {m = p} _ (omega arith) (relax a₁ (omega arith) (omega arith)) λ c l₂ a₂.
          elim (Bool-cases (c == end_of_file)) [
            | inl g ↦ rw g (ends_file_lem _ {x = 0} (relax a₂ (omega arith) (omega arith)) h)
            | inr g ↦ rw g (
                tokench_then a₂ c _ λ l₃ a₃. q c texttype l₃ (relax a₃ (omega arith) (omega arith)))
          ])
]

string_loop_lem :
    (o : Config) (quote n : ℕ) {p m : ℕ} (ch texttype : ℕ) {l : LexFile}
    → At 4 0 p l
    → p + weight ch < n
    → p ≤ m
    → Gives (Left m) (string_loop o quote n ch texttype l)
unfolding string_loop
string_loop_lem o quote zero ch t a f h = absurd (omega arith)
string_loop_lem o quote (suc n) {p = p} ch t {l = l} a f h = elim (Bool-cases (ch == end_of_file)) [
  | inl e ↦ rw e (ends_file_lem _ a h)
  | inr e ↦
      let v = weight_char ch e in
      rw (e, a.preprocesses)
        (getch_from {k = 3} {m = p} _ (omega arith) (in_pre-At a) λ next l₁ a₁.
          elim (Bool-cases (next == quote)) [
            | inl g ↦ rw g (done_lem _ _ (relax a₁ (omega arith) (omega (arith, h))))
            | inr g ↦ rw g (
                string_turn_lem o (suc n) next t _ a₁ h λ c t' l₂ a₂.
                  string_loop_lem o quote n {p = p - weight c} c t'
                    (relax a₂ (omega arith) (omega (arith, a₂.left))) (omega (arith, a₂.left, f, v))
                    (omega (arith, h)))
          ])
]

pub lex_finish_string_lem :
    (o : Config) (n quote : ℕ) {x p m : ℕ} {l : LexFile}
    → At 4 x p l
    → p + 1 < n
    → p ≤ m
    → Gives (Left m) (lex_finish_string o n quote l)
unfolding lex_finish_string
lex_finish_string_lem o n quote {p = p} a f h =
    string_loop_lem o quote n {p = p} 0 0 (relax a (omega arith) (omega arith)) f h
