-- ===== src/Lexer/Turn.antt =====
-- `lex_do`, which reads a token.
use gmqcc.Prelude.{ℕ, zero, suc, Bool, true, false, not, ◌&&◌, ◌||◌, ◌==◌, if◌then◌else◌}
use gmqcc.Lexer.{
  LexFile, Lex, lex_getch, lex_ungetch, end_of_file, get, modify, pure, out_of_fuel, unknown_token,
  ◌>>=◌, ◌>>◌,
}
use gmqcc.Lexer.Chars.{
  Config, is_digit, isident_start, lex_tokench, lex_token_new, lexerror, set_ttype, token_white,
  token_eol, token_eof, token_error, token_fatal, token_operator,
}
use gmqcc.Lexer.White.{lex_skipwhite}
use gmqcc.Lexer.Digits.{lex_finish_digit}
use gmqcc.Lexer.Command.{Next, token, again, dollar_command}
use gmqcc.Lexer.Operators.{
  one_of, whole, single_char, dot, operator_start, operator, product_operator, early,
}
use gmqcc.Lexer.Words.{identifier, string_const, char_const}

-- The end of a line behind a backslash, and whether it is there.
unfoldable pub join_line : Lex Bool
join_line = do
  first ← lex_getch
  next ← if first == b'\r' then lex_getch else pure first
  if next == b'\n' then (do lex_tokench b'\n'; pure true) else (do lex_ungetch next; pure false)

-- The white space before a token, with the ends of lines that a backslash joins to the next.
unfoldable pub merge_lines : Config → ℕ → Bool → Lex ℕ
merge_lines o zero hadwhite = out_of_fuel
merge_lines o (suc n) hadwhite = do
  ch ← lex_skipwhite o (suc n) hadwhite
  l ← get
  if l.mergelines && ch == b'\\'
      then (do joined ← join_line; if joined then merge_lines o n true else pure b'\\')
      else pure ch

-- The end of `lex_do`, behind the operators.
unfoldable pub other_token : Config → ℕ → Bool → ℕ → Lex ℕ
other_token o n pre ch =
    if isident_start ch
    then identifier o n ch
    else if ch == b'"'
    then string_const o n pre
    else if ch == b'\''
    then char_const o n pre
    else if is_digit ch
    then (do kind ← lex_finish_digit o n ch; set_ttype kind)
    else if pre
    then whole ch ch
    else (do lexerror unknown_token; set_ttype token_error)

-- The part behind the first `switch`.
unfoldable pub operator_token : Config → ℕ → LexFile → ℕ → Lex ℕ
operator_token o n l ch =
    if ch == b'.'
    then dot o n l.noops
    else if l.noops && one_of early ch
    then whole ch ch
    else if ch == b','
    then whole ch token_operator
    else if one_of operator_start ch
    then operator o n l.preprocessing ch
    else if ch == b'*' || ch == b'/'
    then product_operator ch
    else if ch == b'%'
    then whole ch token_operator
    else other_token o n l.preprocessing ch

abbrev pub is_white_token : ℕ → Bool
is_white_token ch = ch == token_white || (ch == token_eol || ch == token_fatal)

abbrev pub start_line : LexFile → LexFile
start_line l = record l {
  sline = l.line;
  tok = record l.tok { ctx_line = l.line; ctx_file = l.name };
}

-- The token that starts with `ch`; `next` is a call of `lex_do` behind a command.
abbrev pub or_next : Next → Lex ℕ → Lex ℕ
or_next (token t) next = pure t
or_next again next = next

unfoldable pub token_at : Config → ℕ → ℕ → Lex ℕ → Lex ℕ
token_at o n ch next = do
  modify start_line
  l ← get
  if l.eof
      then set_ttype token_fatal
      else if ch == end_of_file
      then (do modify λ k. record k { eof = true }; set_ttype token_eof)
      else if ch == b'$' && not l.preprocessing
      then (do command ← dollar_command o n; or_next command next)
      else single_char l.noops ch (operator_token o n l ch)

unfoldable pub lex_do : Config → ℕ → Lex ℕ
lex_do o zero = out_of_fuel
lex_do o (suc n) = do
  lex_token_new
  ch ← merge_lines o (suc n) false
  l ← get
  if l.preprocessing && is_white_token ch then set_ttype ch else token_at o (suc n) ch (lex_do o n)
