-- ===== src/Lexer/Operators.antt =====
-- The tokens of `lex_do` that are operators and punctuation.
use gmqcc.Prelude.{ℕ, Bool, false, not, ◌&&◌, ◌||◌, List, [], ◌∷◌, ◌==◌, if◌then◌else◌}
use gmqcc.Lexer.{
  ConstVal, of_type, of_int, of_float, of_vector, Lex, lex_getch, lex_ungetch, get, pure, ◌>>=◌,
  ◌>>◌,
}
use gmqcc.Lexer.Chars.{
  Config, less, is_digit, lex_tokench, set_ttype, set_constval, token_operator, token_dots,
  token_attribute_open, token_attribute_close,
}
use gmqcc.Lexer.Digits.{lex_finish_digit}

-- Whether a character is one of a list.
abbrev pub one_of : List ℕ → ℕ → Bool
one_of [] ch = false
one_of (c ∷ cs) ch = ch == c || one_of cs ch

-- A token that is complete.
abbrev pub whole : ℕ → ℕ → Lex ℕ
whole ch kind = do lex_tokench ch; set_ttype kind

-- A bracket that may be doubled.
unfoldable pub bracket : ℕ → ℕ → ℕ → Lex ℕ
bracket ch doubled single = do
  nextch ← lex_getch
  if nextch == ch
      then (do lex_tokench ch; lex_tokench nextch; set_ttype doubled)
      else (do lex_ungetch nextch; whole ch single)

abbrev pub operator_or : Bool → ℕ → ℕ
operator_or noops ch = if noops then ch else token_operator

abbrev pub opening : List ℕ
opening = b'(' ∷ b':' ∷ b'?' ∷ []

abbrev pub closing : List ℕ
closing = b']' ∷ b')' ∷ b';' ∷ b'{' ∷ b'}' ∷ b'#' ∷ []

-- The first `switch`; `rest` is the code behind it.
unfoldable pub single_char : Bool → ℕ → Lex ℕ → Lex ℕ
single_char noops ch rest =
    if ch == b'['
    then bracket ch token_attribute_open (operator_or noops ch)
    else if one_of opening ch
    then whole ch (operator_or noops ch)
    else if ch == b']' && noops
    then bracket ch token_attribute_close ch
    else if one_of closing ch
    then whole ch ch
    else rest

-- `.`, `...` and two dots, of which the second is put back.
unfoldable pub dots : Bool → Lex ℕ
dots noops = do
  lex_tokench b'.'
  nextch ← lex_getch
  if nextch == b'.'
      then (do
        third ← lex_getch
        if third == b'.'
            then (do lex_tokench b'.'; lex_tokench b'.'; set_ttype token_dots)
            else (do lex_ungetch third; lex_ungetch b'.'; set_ttype (operator_or noops b'.')))
      else (do lex_ungetch nextch; set_ttype (operator_or noops b'.'))

-- A `.` before a digit, at the test that comes before the one for dots.
unfoldable pub dot : Config → ℕ → Bool → Lex ℕ
dot o n noops = do
  nextch ← lex_getch
  lex_ungetch nextch
  if is_digit nextch then lex_finish_digit o n b'.' else dots noops

-- A third character, which belongs to the token if it is `last`.
unfoldable pub third_char : ℕ → Lex ℕ
third_char last = do
  thirdch ← lex_getch
  if thirdch == last then lex_tokench thirdch else lex_ungetch thirdch
  set_ttype token_operator

-- `&~=`, or `&` alone.
unfoldable pub and_not : Lex ℕ
and_not = do
  thirdch ← lex_getch
  if thirdch == b'='
      then (do lex_tokench b'~'; lex_tokench thirdch; set_ttype token_operator)
      else (do lex_ungetch thirdch; lex_ungetch b'~'; set_ttype token_operator)

-- `constval.i` or `constval.f`, by the kind of the token. The bits of the union behind an error are
-- not modelled.
abbrev pub negated : Config → ConstVal → ConstVal
negated o (of_int i) = of_int (less 0 i)
negated o (of_float f) = of_float (o.negate f)
negated o (of_type t) = of_type t
negated o (of_vector x y z) = of_vector x y z

-- A negative number for the preprocessor.
unfoldable pub negative : Config → ℕ → ℕ → Lex ℕ
negative o n nextch = do
  kind ← lex_finish_digit o n nextch
  l ← get
  set_constval (negated o l.tok.constval)
  pure kind

abbrev pub operator_start : List ℕ
operator_start = b'+' ∷ b'-' ∷ b'>' ∷ b'<' ∷ b'=' ∷ b'!' ∷ b'&' ∷ b'|' ∷ b'~' ∷ b'^' ∷ []

unfoldable pub operator_tail : Config → ℕ → Bool → ℕ → ℕ → Lex ℕ
operator_tail o n pre ch nextch =
    if nextch == b'=' && not (ch == b'<') || nextch == b'<' && ch == b'>'
    then whole nextch token_operator
    else if nextch == ch && not (ch == b'!')
    then (do lex_tokench nextch; third_char b'=')
    else if ch == b'<' && nextch == b'='
    then (do lex_tokench nextch; third_char b'>')
    else if ch == b'-' && nextch == b'>'
    then whole nextch token_operator
    else if ch == b'&' && nextch == b'~'
    then and_not
    else if pre && (ch == b'-' && is_digit nextch)
    then negative o n nextch
    else (do lex_ungetch nextch; set_ttype token_operator)

unfoldable pub operator : Config → ℕ → Bool → ℕ → Lex ℕ
operator o n pre ch = do lex_tokench ch; nextch ← lex_getch; operator_tail o n pre ch nextch

-- `*`, `/`, and these with `=` or `*`.
unfoldable pub product_operator : ℕ → Lex ℕ
product_operator ch = do
  lex_tokench ch
  nextch ← lex_getch
  if nextch == b'=' || nextch == b'*' then lex_tokench nextch else lex_ungetch nextch
  set_ttype token_operator

abbrev pub early : List ℕ
early = b'*' ∷ b'/' ∷ b'<' ∷ b'>' ∷ b'=' ∷ b'&' ∷ b'|' ∷ b'^' ∷ b'~' ∷ b',' ∷ b'!' ∷ []
