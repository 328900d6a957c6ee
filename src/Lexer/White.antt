-- ===== src/Lexer/White.antt =====
-- `lex_skipwhite`: white space, comments and, for the preprocessor, their characters as tokens. Every
-- loop is on fuel, which is to be more than the characters that are left.
use gmqcc.Prelude.{ℕ, zero, suc, Bool, true, false, not, ◌&&◌, ◌||◌, ◌==◌, if◌then◌else◌}
use gmqcc.Lexer.{
  Lex, lex_getch, lex_ungetch, end_of_file, get, pure, out_of_fuel, when, ◌>>=◌, ◌>>◌,
}
use gmqcc.Lexer.Chars.{Config, is_space, lex_tokench, token_white, token_eol}
use gmqcc.Lexer.Pragma.{lex_try_pragma}

-- How a loop ends: the function returns, or goes on with `ch` and `haswhite`.
pub data Skip : Type 0 where
  returns : ℕ → Skip
  goes_on : ℕ → Bool → Skip

abbrev pub preprocessing : Lex Bool
preprocessing = do l ← get; pure l.preprocessing

-- The loop over white space. The two branches of a new line end it for the preprocessor.
unfoldable pub skip_blanks : Config → ℕ → ℕ → Bool → Lex Skip
skip_blanks o zero ch haswhite = out_of_fuel
skip_blanks o (suc n) ch haswhite =
    if not (ch == end_of_file) && is_space ch
    then (do
      pragma ← if ch == b'\n' then lex_try_pragma o (suc n) else pure false
      pre ← preprocessing
      if pragma
          then skip_blanks o n ch haswhite
          else if not pre
          then (do next ← lex_getch; skip_blanks o n next haswhite)
          else if not (ch == b'\n')
          then (do lex_tokench ch; next ← lex_getch; skip_blanks o n next true)
          else if haswhite
          then (do lex_ungetch ch; pure (returns token_white))
          else pure (returns token_eol))
    else pure (goes_on ch haswhite)

abbrev pub white_if : Bool → ℕ → Lex (Unit {0})
white_if pre ch = when pre (lex_tokench ch)

-- The rest of a comment of one line.
unfoldable pub line_comment : ℕ → ℕ → Lex ℕ
line_comment zero ch = out_of_fuel
line_comment (suc n) ch =
    if not (ch == end_of_file) && not (ch == b'\n')
    then (do pre ← preprocessing; white_if pre b' '; next ← lex_getch; line_comment n next)
    else pure ch

-- `*` in a comment: whether it is closed, and the character that is gone on with.
unfoldable pub comment_star : ℕ → Lex (Bool × ℕ)
comment_star ch =
    if ch == b'*'
    then (do
      next ← lex_getch
      if next == b'/' then pure (true, next) else (do lex_ungetch next; pure (false, next)))
    else pure (false, ch)

-- The rest of a comment that ends in `*/`.
unfoldable pub block_comment : ℕ → ℕ → Lex (Unit {0})
block_comment zero ch = out_of_fuel
block_comment (suc n) ch = if ch == end_of_file then pure tt else (do
  pre ← preprocessing
  first ← lex_getch
  (closed, next) ← comment_star first
  if closed
      then (do white_if pre b' '; white_if pre b' ')
      else (do white_if pre (if next == b'\n' then b'\n' else b' '); block_comment n next))

-- A `/`: a comment, or the character itself. A comment is gone on from with its last character.
unfoldable pub skip_comment : ℕ → Bool → Lex Skip
skip_comment n haswhite = do
  pre ← preprocessing
  ch ← lex_getch
  if ch == b'/'
      then (do
        first ← lex_getch
        white_if pre b' '
        white_if pre b' '
        last ← line_comment n first
        if pre
            then (do lex_ungetch b'\n'; pure (returns token_white))
            else pure (goes_on last haswhite))
      else if ch == b'*'
      then (do
        white_if pre b' '
        white_if pre b' '
        block_comment n ch
        pure (goes_on b' ' (pre || haswhite)))
      else (do lex_ungetch ch; pure (goes_on b'/' haswhite))

-- The code behind the loop.
unfoldable pub end_white : ℕ → Bool → Lex ℕ
end_white ch haswhite = if haswhite then (do lex_ungetch ch; pure token_white) else pure ch

abbrev pub or_comment : Skip → ℕ → Lex Skip
or_comment (returns t) n = pure (returns t)
or_comment (goes_on ch haswhite) n =
    if ch == b'/' then skip_comment n haswhite else pure (goes_on ch haswhite)

abbrev pub repeated : Skip → (Bool → Lex ℕ) → Lex ℕ
repeated (returns t) again = pure t
repeated (goes_on ch haswhite) again =
    if not (ch == end_of_file) && is_space ch then again haswhite else end_white ch haswhite

unfoldable pub lex_skipwhite : Config → ℕ → Bool → Lex ℕ
lex_skipwhite o zero haswhite = out_of_fuel
lex_skipwhite o (suc n) haswhite = do
  ch ← lex_getch
  blanks ← skip_blanks o (suc n) ch haswhite
  comment ← or_comment blanks (suc n)
  repeated comment (lex_skipwhite o n)
