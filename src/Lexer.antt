-- ===== src/Lexer.antt =====
-- lexer.cpp and lexer.h: the state of a lexed file, and its reading of characters.
--
-- An `int` that holds a character is the number of its 32 bits, so `EOF` is 2 ^ 32 - 1. Lines and
-- columns are `size_t`s of 64 bits.
pub mod Reads
pub mod Whole
pub mod Restored
pub mod Chars
pub mod Pragma
pub mod White
pub mod Frames
pub mod Strings
pub mod Digits
pub mod Command
pub mod Operators
pub mod Words
pub mod Turn
pub mod Bounds
mod Tests
use Prim.Native.Nat.{bit_or}
use gmqcc.Prelude.{
  ℕ, zero, suc, ◌+◌, ◌-◌, ◌*◌, ◌/◌, ◌%◌, ◌^◌, Bool, true, false, not, ◌&&◌, ◌||◌, List, [], ◌∷◌,
  ◌++◌, Option, none, some, ltb, leb, ◌==◌, if◌then◌else◌, length,
}
use gmqcc.Fold.{ValueType, type_void}

-- `token::constval`, by the field that was last assigned; a float is the number of its bits.
pub data ConstVal : Type 0 where
  of_type : ValueType → ConstVal
  of_int of_float : ℕ → ConstVal
  of_vector : ℕ → ℕ → ℕ → ConstVal

-- `value` is the vector of the token's bytes before the 0 that `lex_endtoken` writes behind it.
pub record Token : Type 0 where
  pub ttype : ℕ
  pub value : List ℕ
  pub constval : ConstVal
  pub ctx_line : ℕ
  pub ctx_column : ℕ
  pub ctx_file : List ℕ

pub record FrameMacro : Type 0 where
  pub name : List ℕ
  pub value : ℕ

-- The calls of `lexerror`.
pub data LexError : Type 0 where
  invalid_framename unexpected_eof bad_character_code code_out_of_range : LexError
  unterminated_string invalid_octal trailing_characters hanging_command : LexError
  framevalue_integer framerestore_name unknown_framename modelname_parameter : LexError
  invalid_frame_macro unknown_token : LexError

-- `input` is what is left of the file or the string, `peek` the characters that were put back, the
-- last one first, and `errors` what was reported, the last one first.
pub record LexFile : Type 0 where
  pub is_file : Bool
  pub input : List ℕ
  pub name : List ℕ
  pub line : ℕ
  pub sline : ℕ
  pub column : ℕ
  pub peek : List ℕ
  pub eof : Bool
  pub tok : Token
  pub noops : Bool
  pub nodigraphs : Bool
  pub preprocessing : Bool
  pub mergelines : Bool
  pub framevalue : ℕ
  pub frames : List FrameMacro
  pub modelname : Option (List ℕ)
  pub push_line : ℕ
  pub errors : List LexError

-- A call's result: `overrun` is a write behind the 256 elements of `peek`, which has no defined
-- result, and `spent` the end of the fuel.
pub data Outcome (A : Type 0) : Type 0 where
  done : A → LexFile → Outcome A
  overrun spent : Outcome A

abbrev pub Lex : Type 0 → Type 0
Lex A = LexFile → Outcome A

abbrev pub and_then : {A B : Type 0} → Outcome A → (A → Lex B) → Outcome B
and_then (done a l) f = f a l
and_then overrun f = overrun
and_then spent f = spent

infixl 5 ◌>>=◌
abbrev pub ◌>>=◌ : {A B : Type 0} → Lex A → (A → Lex B) → Lex B
◌>>=◌ m f l = and_then (m l) f

infixl 5 ◌>>◌
abbrev pub ◌>>◌ : {B : Type 0} → Lex (Unit {0}) → Lex B → Lex B
m >> k = m >>= λ _. k

abbrev pub pure : {A : Type 0} → A → Lex A
pure a l = done a l

abbrev pub get : Lex LexFile
get l = done l l

abbrev pub modify : (LexFile → LexFile) → Lex (Unit {0})
modify f l = done tt (f l)

abbrev pub out_of_fuel : {A : Type 0} → Lex A
out_of_fuel l = spent

abbrev pub when : Bool → Lex (Unit {0}) → Lex (Unit {0})
when true m = m
when false m = pure tt

abbrev pub end_of_file : ℕ
end_of_file = 2 ^ 32 - 1

-- `n + 1` and `n - 1` on a `size_t`.
abbrev pub up : ℕ → ℕ
up n = (n + 1) % 2 ^ 64

abbrev pub down : ℕ → ℕ
down n = (n + (2 ^ 64 - 1)) % 2 ^ 64

-- A byte as `fgetc` returns it, or as a `char`, which is signed, becomes an `int`.
abbrev pub read_byte : Bool → ℕ → ℕ
read_byte true b = b
read_byte false b = if ltb b 128 then b else b + (2 ^ 32 - 256)

abbrev pub fgetc_of : List ℕ → Lex ℕ
fgetc_of [] l = done end_of_file (record l { column = if l.is_file then up l.column else l.column })
fgetc_of (b ∷ bs) l = done (read_byte l.is_file b) (record l { input = bs; column = up l.column })

unfoldable pub lex_fgetc : Lex ℕ
lex_fgetc l = fgetc_of l.input l

-- `!lex->push_line && ch == '\n'`
abbrev pub counts : ℕ → LexFile → Bool
counts ch l = l.push_line == 0 && ch == b'\n'

-- Counts a line that was read.
abbrev pub count_line : ℕ → Lex (Unit {0})
count_line ch l = done tt (record l {
  line = if counts ch l then up l.line else l.line;
  column = if counts ch l then 0 else l.column;
})

unfoldable pub lex_ungetch : ℕ → Lex (Unit {0})
lex_ungetch ch l =
    if ltb (length l.peek) 256
    then done tt (record l {
      peek = ch ∷ l.peek;
      line = if counts ch l then down l.line else l.line;
      column = if counts ch l then 0 else down l.column;
    })
    else overrun

abbrev pub trigraph : ℕ → Option ℕ
trigraph c =
    if c == b'='
    then some b'#'
    else if c == b'/'
    then some b'\\'
    else if c == b'\''
    then some b'^'
    else if c == b'('
    then some b'['
    else if c == b')'
    then some b']'
    else if c == b'!'
    then some b'|'
    else if c == b'<'
    then some b'{'
    else if c == b'>'
    then some b'}'
    else if c == b'-'
    then some b'~'
    else none

abbrev pub end_trigraph : Option ℕ → ℕ → ℕ → ℕ → Lex ℕ
end_trigraph (some t) old c2 c3 = pure t
end_trigraph none old c2 c3 = do lex_ungetch c3; lex_ungetch c2; pure old

unfoldable pub lex_try_trigraph : ℕ → Lex ℕ
lex_try_trigraph old = do
  c2 ← lex_fgetc
  count_line c2
  if c2 == b'?'
      then (do c3 ← lex_fgetc; count_line c3; end_trigraph (trigraph c3) old c2 c3)
      else (do lex_ungetch c2; pure old)

abbrev pub digraph : ℕ → ℕ → Option ℕ
digraph ch c2 =
    if ch == b'<' && c2 == b':'
    then some b'['
    else if ch == b':' && c2 == b'>'
    then some b']'
    else if ch == b'<' && c2 == b'%'
    then some b'{'
    else if ch == b'%' && c2 == b'>'
    then some b'}'
    else if ch == b'%' && c2 == b':'
    then some b'#'
    else none

abbrev pub end_digraph : Option ℕ → ℕ → ℕ → Lex ℕ
end_digraph (some t) ch c2 = pure t
end_digraph none ch c2 = do lex_ungetch c2; pure ch

-- The line is counted here without a change of the column.
unfoldable pub lex_try_digraph : ℕ → Lex ℕ
lex_try_digraph ch = do
  c2 ← lex_fgetc
  modify λ l. record l { line = if counts c2 l then up l.line else l.line }
  end_digraph (digraph ch c2) ch c2

abbrev pub opens_digraph : ℕ → Bool
opens_digraph ch = ch == b'<' || ch == b':' || ch == b'%'

-- The end of `lex_getch` on a character `ch` of the input.
abbrev pub getch_fresh : ℕ → Lex ℕ
getch_fresh ch l =
    if counts ch l
    then (count_line ch >> pure ch) l
    else if ch == b'?'
    then lex_try_trigraph ch l
    else if not l.nodigraphs && opens_digraph ch
    then lex_try_digraph ch l
    else done ch l

abbrev pub getch_of : List ℕ → Lex ℕ
getch_of [] l = (lex_fgetc >>= getch_fresh) l
getch_of (c ∷ cs) l = (count_line c >> pure c) (record l { peek = cs })

unfoldable pub lex_getch : Lex ℕ
lex_getch l = getch_of l.peek l

-- `lex_open_string` with the flags that its callers assign, and what `lex_open` starts with.
abbrev pub new_file : Bool → List ℕ → List ℕ → LexFile
new_file is_file input name = record {
  is_file = is_file;
  input = input;
  name = name;
  line = 1;
  sline = 0;
  column = 0;
  peek = [];
  eof = false;
  tok = record {
    ttype = 0;
    value = [];
    constval = of_type type_void;
    ctx_line = 0;
    ctx_column = 0;
    ctx_file = [];
  };
  noops = false;
  nodigraphs = false;
  preprocessing = false;
  mergelines = false;
  framevalue = 0;
  frames = [];
  modelname = none;
  push_line = 0;
  errors = [];
}

abbrev pub lex_open_string : List ℕ → List ℕ → LexFile
lex_open_string = new_file false

-- `read` on three characters: a shift of `EOF`, which is -1, sets all the higher bits.
abbrev pub bom_word : ℕ → ℕ → ℕ → ℕ
bom_word a b c = bit_or (bit_or (a * 2 ^ 16 % 2 ^ 32) (b * 2 ^ 8 % 2 ^ 32)) c

-- The characters are read in this order; C leaves it open.
unfoldable pub skip_bom : Lex (Unit {0})
skip_bom = do
  a ← lex_getch
  b ← lex_getch
  c ← lex_getch
  let read = bom_word a b c
  if read == 0xEFBBBF then (modify λ l. record l { column = 0 }) else (do
    lex_ungetch (read % 2 ^ 8)
    lex_ungetch (read / 2 ^ 8 % 2 ^ 8)
    lex_ungetch (read / 2 ^ 16 % 2 ^ 8))

-- `lex_open` of a file that could be opened.
unfoldable pub lex_open : List ℕ → List ℕ → Outcome (Unit {0})
lex_open input name = skip_bom (new_file true input name)
