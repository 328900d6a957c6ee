-- ===== src/Lexer/Strings.antt =====
-- `lex_finish_string`: the rest of a string or character constant, and its escapes.
use Prim.Native.Nat.{bit_or}
use gmqcc.Prelude.{
  ℕ, zero, suc, ◌+◌, ◌-◌, ◌*◌, ◌%◌, ◌^◌, Bool, false, ◌&&◌, ◌||◌, List, [], ◌∷◌, Option, none, some,
  leb, ◌==◌, if◌then◌else◌, length,
}
use gmqcc.Utf8.{utf8_from}
use gmqcc.Lexer.{
  LexError, Lex, lex_getch, lex_ungetch, end_of_file, get, modify, pure, out_of_fuel, read_byte,
  unexpected_eof, bad_character_code, code_out_of_range, unterminated_string, ◌>>=◌, ◌>>◌,
}
use gmqcc.Lexer.Chars.{
  Config, less, between, lex_tokench, lexerror, set_ttype, token_stringconst, token_error,
}

-- What an escape comes to: a character for the token, a change of the high bit, or an error that
-- was reported.
pub data Escape : Type 0 where
  char_of : ℕ → Escape
  high_bit : Escape
  failed : Escape

abbrev pub fails : LexError → Lex Escape
fails e = do lexerror e; pure failed

abbrev pub decimal_digit : ℕ → Option ℕ
decimal_digit c = if between b'0' b'9' c then some (c - b'0') else none

abbrev pub hex_digit : ℕ → Option ℕ
hex_digit c =
    if between b'0' b'9' c
    then some (c - b'0')
    else if between b'a' b'f' c
    then some (c - b'a' + 10)
    else if between b'A' b'F' c
    then some (c - b'A' + 10)
    else none

abbrev pub bad_code : ℕ → Lex Escape
bad_code nextch = do lexerror bad_character_code; lex_ungetch nextch; pure failed

abbrev pub second_digit : Option ℕ → ℕ → ℕ → Lex Escape
second_digit none high nextch = bad_code nextch
second_digit (some low) high nextch = pure (char_of (high * 0x10 + low))

abbrev pub first_digit : Option ℕ → ℕ → Lex Escape
first_digit none nextch = bad_code nextch
first_digit (some high) nextch = do c ← lex_getch; second_digit (hex_digit c) high c

unfoldable pub hex_escape : Lex Escape
hex_escape = do c ← lex_getch; first_digit (hex_digit c) c

-- The base that `\{` takes from the character behind it.
pub data Base : Type 0 where
  decimal hexadecimal octal : Base

abbrev pub base_of : ℕ → Base
base_of c = if c == b'x' then hexadecimal else if c == b'0' then octal else decimal

abbrev pub with_digit : ℕ → ℕ → Option ℕ → Option ℕ
with_digit base chr none = none
with_digit base chr (some d) = some (chr * base + d)

-- The number so far with one more digit. In base 8 the source adds the number again, in the place
-- of the digit.
unfoldable pub add_digit : Base → ℕ → ℕ → Option ℕ
add_digit decimal chr c = with_digit 10 chr (decimal_digit c)
add_digit hexadecimal chr c = with_digit 0x10 chr (hex_digit c)
add_digit octal chr c =
    if between b'0' b'9' c then some (less ((chr * 8 + chr) % 2 ^ 32) b'0') else none

-- The bytes of a character, all but the last for the token.
unfoldable pub token_bytes : List ℕ → Lex ℕ
token_bytes [] = pure 0
token_bytes (b ∷ []) = pure (read_byte false b)
token_bytes (b ∷ c ∷ cs) = do lex_tokench b; token_bytes (c ∷ cs)

-- The character of a code.
unfoldable pub code_char : Config → ℕ → Lex Escape
code_char o chr =
    if o.utf8 && leb 128 chr
    then (do
      modify λ l. record l { column = (l.column + (length (utf8_from chr) - 1)) % 2 ^ 64 }
      ch ← token_bytes (utf8_from chr)
      pure (char_of ch))
    else pure (char_of chr)

abbrev pub in_range : Config → ℕ → Bool
in_range o chr = leb chr 0x10FFFF && (o.utf8 || leb chr 255)

abbrev pub checked_code : Config → Option ℕ → (ℕ → Lex Escape) → Lex Escape
checked_code o none again = fails bad_character_code
checked_code o (some chr) again = if in_range o chr then again chr else fails code_out_of_range

-- The digits up to `}`.
unfoldable pub code_digits : Config → Base → ℕ → ℕ → Lex Escape
code_digits o base zero chr = out_of_fuel
code_digits o base (suc n) chr = do
  c ← lex_getch
  if c == b'}'
      then code_char o chr
      else checked_code o (add_digit base chr c) (code_digits o base n)

abbrev pub unget_decimal : Base → ℕ → Lex (Unit {0})
unget_decimal decimal c = lex_ungetch c
unget_decimal hexadecimal c = pure tt
unget_decimal octal c = pure tt

unfoldable pub code_escape : Config → ℕ → Lex Escape
code_escape o n = do c ← lex_getch; unget_decimal (base_of c) c; code_digits o (base_of c) n 0

-- The escapes that are one character.
unfoldable pub plain_escape : ℕ → Option ℕ
plain_escape ch =
    if ch == b'\\' || (ch == b'\'' || (ch == b'"' || ch == b'\n'))
    then some ch
    else if ch == b'a'
    then some 7
    else if ch == b'r'
    then some 13
    else if ch == b'n'
    then some 10
    else if ch == b't'
    then some 9
    else if ch == b'f'
    then some 12
    else if ch == b'v'
    then some 11
    else if between b'0' b'9' ch
    then some (18 + ch - b'0')
    else if ch == b'<'
    then some 29
    else if ch == b'-'
    then some 30
    else if ch == b'>'
    then some 31
    else if ch == b'['
    then some 16
    else if ch == b']'
    then some 17
    else none

-- The `switch` on the character behind a backslash.
unfoldable pub escape_of : Config → ℕ → Option ℕ → ℕ → Lex Escape
escape_of o n (some c) ch = pure (char_of c)
escape_of o n none ch =
    if ch == b'x' || ch == b'X'
    then hex_escape
    else if ch == b'{'
    then code_escape o n
    else if ch == b'b' || ch == b's'
    then pure high_bit
    else (do lex_tokench b'\\'; pure (char_of ch))

abbrev pub ends_file : LexError → Lex ℕ
ends_file e = do lexerror e; lex_ungetch end_of_file; set_ttype token_error

-- One turn with the next character `ch`. `again` is the rest of the loop, with the character and
-- the high bit that it goes on with.
abbrev pub after_escape : Escape → ℕ → ℕ → (ℕ → ℕ → Lex ℕ) → Lex ℕ
after_escape failed ch texttype again = set_ttype token_error
after_escape high_bit ch texttype again = again ch (128 - texttype)
after_escape (char_of c) ch texttype again = do lex_tokench (bit_or c texttype); again c texttype

unfoldable pub string_turn : Config → ℕ → Bool → ℕ → ℕ → (ℕ → ℕ → Lex ℕ) → Lex ℕ
string_turn o n pre ch texttype again =
    if ch == b'\\'
    then (do
      if pre then lex_tokench ch else pure tt
      c ← lex_getch
      if c == end_of_file
          then ends_file unexpected_eof
          else if pre
          then (do lex_tokench c; again c texttype)
          else (do e ← escape_of o n (plain_escape c) c; after_escape e c texttype again))
    else (do lex_tokench ch; again ch texttype)

unfoldable pub string_loop : Config → ℕ → ℕ → ℕ → ℕ → Lex ℕ
string_loop o quote zero ch texttype = out_of_fuel
string_loop o quote (suc n) ch texttype =
    if ch == end_of_file then ends_file unterminated_string else (do
      l ← get
      next ← lex_getch
      if next == quote
          then pure token_stringconst
          else string_turn o (suc n) l.preprocessing next texttype (string_loop o quote n))

unfoldable pub lex_finish_string : Config → ℕ → ℕ → Lex ℕ
lex_finish_string o n quote = string_loop o quote n 0 0
