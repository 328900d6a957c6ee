-- ===== src/Lexer/Digits.antt =====
-- `lex_finish_digit`: the rest of a number.
use gmqcc.Prelude.{ℕ, zero, suc, ◌%◌, ◌^◌, Bool, true, false, not, ◌&&◌, ◌||◌, ◌==◌, if◌then◌else◌}
use gmqcc.Lexer.{
  LexError, Lex, of_int, of_float, lex_getch, lex_ungetch, get, pure, out_of_fuel, invalid_octal,
  trailing_characters, ◌>>=◌, ◌>>◌,
}
use gmqcc.Lexer.Chars.{
  Config, less, between, is_digit, isident, isxdigit_only, lex_tokench, lexerror, set_ttype,
  set_constval, token_intconst, token_floatconst, token_error,
}

unfoldable pub take_digits : Bool → ℕ → ℕ → Lex ℕ
take_digits ishex zero ch = out_of_fuel
take_digits ishex (suc n) ch =
    if is_digit ch || ishex && isxdigit_only ch
    then (do lex_tokench ch; next ← lex_getch; take_digits ishex n next)
    else pure ch

abbrev pub number_error : LexError → Lex ℕ
number_error e = do lexerror e; set_ttype token_error

-- The base of a number that is not a float.
abbrev pub base_for : Bool → Bool → ℕ
base_for ishex isoct = if isoct then 8 else if ishex then 16 else 10

unfoldable pub number_value : Config → Bool → ℕ → Lex (Unit {0})
number_value o is_float base = do
  l ← get
  set_constval (
      if is_float
      then of_float (o.strtod l.tok.value)
      else of_int (o.strtol l.tok.value base % 2 ^ 32))

-- A word may not follow.
unfoldable pub close_number : Config → Bool → ℕ → ℕ → Lex ℕ
close_number o is_float base ch = if isident ch false then number_error trailing_characters else (do
  lex_ungetch ch
  number_value o is_float base
  set_ttype (if is_float then token_floatconst else token_intconst))

-- The end: the `f` of a float is dropped.
unfoldable pub end_number : Config → Bool → ℕ → ℕ → Lex ℕ
end_number o is_float base last =
    if is_float && last == b'f'
    then (do ch ← lex_getch; close_number o is_float base ch)
    else close_number o is_float base last

unfoldable pub float_part : Config → ℕ → Bool → Bool → ℕ → ℕ → Lex ℕ
float_part o n is_float ishex base ch =
    if not is_float && (ch == b'.' && not ishex)
    then (do
      lex_tokench ch
      next ← lex_getch
      last ← take_digits false n next
      end_number o true base last)
    else end_number o is_float base ch

unfoldable pub int_part : ℕ → Bool → ℕ → Lex ℕ
int_part n ishex ch =
    if ch == b'.' then pure ch else (do lex_tokench ch; next ← lex_getch; take_digits ishex n next)

abbrev pub starts_octal : ℕ → ℕ → Bool
starts_octal lastch ch = lastch == b'0' && is_digit ch

abbrev pub ends_number : Bool → ℕ → ℕ → Bool
ends_number isoct lastch ch =
    not isoct && (not (ch == b'.') && (not (is_digit ch) && not (lastch == b'0' && ch == b'x')))

abbrev pub is_hex : Bool → ℕ → Bool
is_hex isoct ch = not isoct && (not (ch == b'.') && not (is_digit ch))

unfoldable pub lex_finish_digit : Config → ℕ → ℕ → Lex ℕ
lex_finish_digit o n lastch = do
  let is_float = lastch == b'.'
  let kind = if is_float then token_floatconst else token_intconst
  lex_tokench lastch
  ch ← lex_getch
  let isoct = starts_octal lastch ch
  let ishex = is_hex isoct ch
  if isoct && not (between b'0' b'7' ch)
      then number_error invalid_octal
      else if ends_number isoct lastch ch
      then (do lex_ungetch ch; set_constval (of_int (less lastch b'0')); set_ttype kind)
      else (do
        last ← int_part n ishex ch
        float_part o n is_float ishex (base_for ishex isoct) last)
