-- ===== src/Lexer/Words.antt =====
-- The tokens of `lex_do` that are identifiers, keywords, strings and characters.
use Prim.Native.String.{String}
use gmqcc.Prelude.{
  ℕ, zero, suc, Bool, true, false, not, ◌&&◌, ◌||◌, List, [], ◌∷◌, ◌++◌, Option, none, some, ltb,
  ◌==◌, if◌then◌else◌, length,
}
use gmqcc.Utf8.{Decoded, utf8_to}
use gmqcc.Fold.{
  ValueType, type_void, type_string, type_float, type_vector, type_entity, type_integer,
}
use gmqcc.Lexer.{
  of_type, of_int, of_vector, Lex, lex_ungetch, read_byte, get, modify, pure, out_of_fuel, when,
  ◌>>=◌, ◌>>◌,
}
use gmqcc.Lexer.Chars.{
  Config, lex_tokench, set_ttype, set_constval, is, token_ident, token_typename, token_operator,
  token_keyword, token_stringconst, token_charconst, token_vectorconst, token_error,
  warn_multibyte_character,
}
use gmqcc.Lexer.Frames.{lex_finish_ident}
use gmqcc.Lexer.Strings.{lex_finish_string}
use gmqcc.Lexer.White.{lex_skipwhite}

abbrev pub keywords_qc : List String
keywords_qc = "for" ∷ "do" ∷ "while" ∷ "if" ∷ "else" ∷ "local" ∷ "return" ∷ "const" ∷ []

abbrev pub keywords_fg : List String
keywords_fg =
    "switch" ∷ "case" ∷ "default" ∷ "struct" ∷ "union" ∷ "break" ∷ "continue" ∷ "typedef" ∷ "goto"
    ∷ "__builtin_debug_printtype" ∷ []

unfoldable pub among : List String → List ℕ → Bool
among [] v = false
among (k ∷ ks) v = is k v || among ks v

abbrev pub type_name : List ℕ → Option ValueType
type_name v =
    if is "void" v
    then some type_void
    else if is "int" v
    then some type_integer
    else if is "float" v
    then some type_float
    else if is "string" v
    then some type_string
    else if is "entity" v
    then some type_entity
    else if is "vector" v
    then some type_vector
    else none

unfoldable pub word_kind : Bool → List ℕ → ℕ
word_kind standard_qcc v =
    if is "_length" v
    then token_operator
    else if among keywords_qc v || not standard_qcc && among keywords_fg v
    then token_keyword
    else token_ident

abbrev pub classified : Option ValueType → Bool → List ℕ → Lex ℕ
classified (some t) standard_qcc v = do set_constval (of_type t); set_ttype token_typename
classified none standard_qcc v = set_ttype (word_kind standard_qcc v)

unfoldable pub identifier : Config → ℕ → ℕ → Lex ℕ
identifier o n ch = do
  lex_tokench ch
  lex_finish_ident n false
  l ← get
  classified (type_name l.tok.value) o.standard_qcc l.tok.value

abbrev pub set_nodigraphs : Bool → Lex (Unit {0})
set_nodigraphs b = modify λ l. record l { nodigraphs = b }

-- `"..." "..."`: the strings that follow, on fuel.
unfoldable pub continued : Config → ℕ → ℕ → Lex ℕ
continued o zero kind = out_of_fuel
continued o (suc n) kind = do
  l ← get
  if not l.preprocessing && kind == token_stringconst
      then (do
        ch ← lex_skipwhite o (suc n) false
        if ch == b'"'
            then (do next ← lex_finish_string o (suc n) b'"'; continued o n next)
            else (do lex_ungetch ch; pure kind))
      else pure kind

unfoldable pub string_const : Config → ℕ → Bool → Lex ℕ
string_const o n pre = do
  set_nodigraphs true
  when pre (lex_tokench b'"')
  first ← lex_finish_string o n b'"'
  when pre (lex_tokench b'"')
  kind ← continued o n first
  set_nodigraphs false
  set_ttype kind

-- The value as a C string, which the 0 of `lex_endtoken` ends.
abbrev pub c_string : List ℕ → List ℕ
c_string [] = []
c_string (b ∷ bs) = if b == 0 then [] else b ∷ c_string bs

abbrev pub first_byte : List ℕ → ℕ
first_byte [] = 0
first_byte (b ∷ bs) = b

-- The character that `utf8_to` decodes. It does not read behind the 0.
abbrev pub decoded : Option Decoded → Option ℕ
decoded none = none
decoded (some (zero, c)) = none
decoded (some (suc n, none)) = none
decoded (some (suc n, some c)) = some c

abbrev pub utf8_value : Config → List ℕ → Option ℕ
utf8_value o v = if o.utf8 then decoded (utf8_to (v ++ 0 ∷ []) 8) else none

abbrev pub multibyte : Config → Option ℕ → Lex ℕ
multibyte o (some c) = do set_constval (of_int c); set_ttype token_charconst
multibyte o none =
    set_ttype (if o.lexwarn warn_multibyte_character then token_error else token_charconst)

abbrev pub vector_or_char : Config → Bool → Option (ℕ × ℕ × ℕ) → List ℕ → Lex ℕ
vector_or_char o pre (some (x, y, z)) v = do
  set_constval (of_vector x y z)
  set_ttype token_vectorconst
vector_or_char o pre none v =
    if not pre && ltb 1 (length v)
    then multibyte o (utf8_value o v)
    else (do set_constval (of_int (read_byte false (first_byte v))); set_ttype token_charconst)

-- What `lex_finish_string` returns is dropped.
unfoldable pub char_const : Config → ℕ → Bool → Lex ℕ
char_const o n pre = do
  when pre (lex_tokench b'\'')
  _ ← lex_finish_string o n b'\''
  when pre (lex_tokench b'\'')
  l ← get
  let v = c_string l.tok.value
  vector_or_char o pre (o.scan_vector v) v
