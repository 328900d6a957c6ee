-- ===== src/Lexer/Chars.antt =====
-- The classes of characters and the buffer of a token of lexer.cpp, the kinds of tokens of lexer.h,
-- and what the lexer takes from other files.
use Prim.Native.Nat.{bit_or}
use Prim.Native.Char.{code}
use Prim.Native.String.{String}
use gmqcc.Prelude.{
  ℕ, ◌+◌, ◌-◌, ◌%◌, ◌^◌, Bool, true, false, ◌&&◌, ◌||◌, List, [], ◌∷◌, ◌++◌, Option, ltb, leb, ◌==◌,
}
use gmqcc.Fold.{type_void}
use gmqcc.Lexer.{Lex, LexError, ConstVal, of_type, modify, done, ◌>>◌}

-- The enumeration of tokens. A token that is one character has that character's number.
abbrev pub token_ident : ℕ
token_ident = 129

abbrev pub token_typename : ℕ
token_typename = 130

abbrev pub token_operator : ℕ
token_operator = 131

abbrev pub token_keyword : ℕ
token_keyword = 132

abbrev pub token_dots : ℕ
token_dots = 133

abbrev pub token_attribute_open : ℕ
token_attribute_open = 134

abbrev pub token_attribute_close : ℕ
token_attribute_close = 135

abbrev pub token_stringconst : ℕ
token_stringconst = 139

abbrev pub token_charconst : ℕ
token_charconst = 140

abbrev pub token_vectorconst : ℕ
token_vectorconst = 141

abbrev pub token_intconst : ℕ
token_intconst = 142

abbrev pub token_floatconst : ℕ
token_floatconst = 143

abbrev pub token_white : ℕ
token_white = 144

abbrev pub token_eol : ℕ
token_eol = 145

abbrev pub token_eof : ℕ
token_eof = 1024

abbrev pub token_error : ℕ
token_error = 1025

abbrev pub token_fatal : ℕ
token_fatal = 1026

-- The warnings of the lexer.
pub data LexWarning : Type 0 where
  warn_frame_macros warn_unknown_control_sequence warn_multibyte_character : LexWarning

-- The options that the lexer reads, `lexwarn` as the result of `vcompile_warning`, and the functions
-- of the C library: `strtol` with its base, `strtod`, and `sscanf` of
-- three floats. A `long` is the number of its 64 bits, and a float that of its bits.
pub record Config : Type 0 where
  pub utf8 : Bool
  pub standard_qcc : Bool
  pub lexwarn : LexWarning → Bool
  pub strtol : List ℕ → ℕ → ℕ
  pub strtod : List ℕ → ℕ
  pub negate : ℕ → ℕ
  pub scan_vector : List ℕ → Option (ℕ × ℕ × ℕ)

-- `(unsigned)a - b`
abbrev pub less : ℕ → ℕ → ℕ
less a b = (a + 2 ^ 32 - b) % 2 ^ 32

unfoldable pub is_alpha : ℕ → Bool
is_alpha a = ltb (less (bit_or a 32) b'a') 26

unfoldable pub is_digit : ℕ → Bool
is_digit a = ltb (less a b'0') 10

-- Characters are compared as signed numbers, and negative ones are above all bounds here.
abbrev pub between : ℕ → ℕ → ℕ → Bool
between a b c = leb a c && leb c b

unfoldable pub is_space : ℕ → Bool
is_space a = between 9 13 a || a == b' '

unfoldable pub isident_start : ℕ → Bool
unfolding is_alpha
isident_start ch = is_alpha ch || ch == b'_'

unfoldable pub isident : ℕ → Bool → Bool
unfolding isident_start is_digit
isident ch allow_dot = isident_start ch || is_digit ch || allow_dot && ch == b'.'

unfoldable pub isxdigit_only : ℕ → Bool
isxdigit_only ch = between b'a' b'f' ch || between b'A' b'F' ch

-- `lex_endtoken` writes a 0 behind the value.
unfoldable pub lex_tokench : ℕ → Lex (Unit {0})
lex_tokench ch =
    modify λ l. record l { tok = record l.tok { value = l.tok.value ++ ch % 2 ^ 8 ∷ [] } }

unfoldable pub lex_token_new : Lex (Unit {0})
lex_token_new = modify λ l. record l {
  tok = record l.tok {
    value = [];
    constval = of_type type_void;
    ctx_line = l.sline;
    ctx_file = l.name;
    ctx_column = l.column;
  };
}

unfoldable pub lexerror : LexError → Lex (Unit {0})
lexerror e = modify λ l. record l { errors = e ∷ l.errors }

-- `lex->tok.ttype = t`, as a value.
unfoldable pub set_ttype : ℕ → Lex ℕ
set_ttype t l = (modify (λ k. record k { tok = record k.tok { ttype = t } }) >> λ k. done t k) l

unfoldable pub set_constval : ConstVal → Lex (Unit {0})
set_constval v = modify λ l. record l { tok = record l.tok { constval = v } }

-- A literal of the source, and `!strcmp` with it on bytes without a 0.
abbrev pub codes : String → List ℕ
codes String.[] = []
codes (String.◌∷◌ c s) = code c ∷ codes s

abbrev pub same : List ℕ → List ℕ → Bool
same [] [] = true
same [] (b ∷ bs) = false
same (a ∷ as') [] = false
same (a ∷ as') (b ∷ bs) = a == b && same as' bs

abbrev pub is : String → List ℕ → Bool
is name v = same (codes name) v
