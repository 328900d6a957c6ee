-- ===== src/Lexer/Tests.antt =====
-- Runs of the lexer on small inputs.
use Prim.Native.String.{String}
use gmqcc.Prelude.{
  ℕ, zero, suc, ◌+◌, ◌-◌, ◌*◌, ◌%◌, ◌^◌, ◌≤◌, true, false, List, [], ◌∷◌, Option, none, some, ◌≡◌,
  refl, ◌==◌, if◌then◌else◌, length, arith,
}
use gmqcc.Lexer.{
  LexFile, Lex, Outcome, ConstVal, of_int, done, overrun, spent, lex_getch, lex_fgetc, lex_ungetch,
  lex_open_string, new_file, lex_open, skip_bom, lex_try_trigraph, lex_try_digraph, get, pure,
  ◌>>=◌,
}
use gmqcc.Lexer.Chars.{
  Config, codes, lex_tokench, lex_token_new, lexerror, set_ttype, set_constval, is_alpha, is_digit,
  is_space, isident_start, isident, isxdigit_only,
}
use gmqcc.Lexer.Reads.{text}
use gmqcc.Lexer.Whole.{read_all, lines_of, read_all-text}
use gmqcc.Lexer.Restored.{lex_getch-lex_ungetch}
use gmqcc.Lexer.Turn.{join_line, lex_do, merge_lines, token_at, operator_token, other_token}
use gmqcc.Lexer.White.{
  lex_skipwhite, skip_blanks, skip_comment, line_comment, block_comment, comment_star, end_white,
}
use gmqcc.Lexer.Pragma.{
  lex_try_pragma, pragma_word, pragma_command, pragma_param, skip_line, run_pragma, unroll,
  put_part, put_back, collect,
}
use gmqcc.Lexer.Frames.{
  lex_finish_ident, take_ident, lex_parse_frame, skip_spaces, lex_finish_frames, define_frame,
  find_frame,
}
use gmqcc.Lexer.Strings.{
  lex_finish_string, string_loop, string_turn, escape_of, plain_escape, code_escape, code_digits,
  code_char, token_bytes, add_digit, hex_escape,
}
use gmqcc.Lexer.Digits.{
  lex_finish_digit, int_part, float_part, end_number, close_number, number_value, take_digits,
}
use gmqcc.Lexer.Command.{
  dollar_command, run_command, rest_of_line, modelname_command, framerestore_command,
  framevalue_command,
}
use gmqcc.Lexer.Operators.{
  operator, operator_tail, negative, and_not, third_char, dots, dot, product_operator, bracket,
  single_char,
}
use gmqcc.Lexer.Words.{identifier, word_kind, among, string_const, continued, char_const}
use gmqcc.Lexer.Bounds.{pending}
use gmqcc.Lexer.Bounds.Progress.{IsReady, lex_all, lex_all_ends}

-- `strtol` of decimal digits, behind an optional sign.
abbrev from_digits : ℕ → List ℕ → ℕ
from_digits n [] = n
from_digits n (c ∷ cs) = from_digits (n * 10 + (c - b'0')) cs

abbrev decimal_strtol : List ℕ → ℕ → ℕ
decimal_strtol [] base = 0
decimal_strtol (c ∷ cs) base =
    if c == b'-' then 2 ^ 64 - from_digits 0 cs else from_digits 0 (c ∷ cs)

abbrev some_config : Config
some_config = record {
  utf8 = false;
  standard_qcc = false;
  lexwarn = λ w. false;
  strtol = decimal_strtol;
  strtod = λ v. 0;
  negate = λ f. f;
  scan_vector = λ v. none;
}

-- `a??=b` and a line's end.
abbrev trigraph_file : LexFile
trigraph_file = new_file true (codes "a??=b\n") []

trigraph_run : text trigraph_file ≡ codes "a#b\n"
unfolding text
trigraph_run = refl

-- A `?` that starts no sequence hides the next one, and so does a `<`.
hidden_run : text (new_file true (codes "???=<<:") []) ≡ codes "???=<<:"
unfolding text
hidden_run = refl

read_all-text_example :
    (l' : LexFile) × (read_all 10 trigraph_file ≡ done (text trigraph_file) l')
    × (l'.line ≡ (1 + lines_of trigraph_file (text trigraph_file)) % 2 ^ 64)
unfolding text
read_all-text_example = read_all-text 10 trigraph_file (omega arith) (omega arith)

abbrev behind_a : LexFile
behind_a = record trigraph_file { input = codes "??=b\n"; column = 1 }

lex_getch-lex_ungetch_example :
    (k : LexFile) × ((lex_getch >>= lex_ungetch) trigraph_file ≡ done tt k)
    × (text k ≡ text trigraph_file)
    × (k.line ≡ 1)
unfolding lex_getch lex_fgetc
lex_getch-lex_ungetch_example =
    lex_getch-lex_ungetch b'a' trigraph_file behind_a (omega arith) refl refl (omega arith)

abbrev preprocessed : String → LexFile
preprocessed s = record (new_file true (codes s) []) { preprocessing = true }

abbrev comment_file : LexFile
comment_file = preprocessed "/* c */ x->y"

lex_all_ends_example :
    (ts : List ℕ) × (l' : LexFile) × (lex_all some_config 20 20 comment_file ≡ done ts l')
    × IsReady l'
    × (length ts + pending l' ≤ pending comment_file)
unfolding IsReady pending
lex_all_ends_example =
    lex_all_ends some_config 20 20 comment_file (refl, omega arith) (omega arith) (omega arith)

-- The kinds and the values of the first `k` tokens, and the last token's integer.
tokens_of : Config → ℕ → ℕ → Lex (List (ℕ × List ℕ))
tokens_of o n zero = pure []
tokens_of o n (suc k) = do
  t ← lex_do o n
  l ← get
  ts ← tokens_of o n k
  pure ((t, l.tok.value) ∷ ts)

abbrev result_of : {A : Type 0} → Outcome A → Option A
result_of (done a l) = some a
result_of overrun = none
result_of spent = none

unfoldable run_tokens : ℕ → LexFile → Option (List (ℕ × List ℕ))
unfolding tokens_of lex_do join_line merge_lines token_at operator_token other_token lex_skipwhite
    skip_blanks skip_comment line_comment block_comment comment_star end_white lex_try_pragma
    pragma_word pragma_command pragma_param skip_line run_pragma unroll put_part put_back collect
    lex_finish_ident take_ident lex_parse_frame skip_spaces lex_finish_frames define_frame
    find_frame lex_finish_string string_loop string_turn escape_of plain_escape code_escape
    code_digits code_char token_bytes add_digit hex_escape lex_finish_digit int_part float_part
    end_number close_number number_value take_digits dollar_command run_command rest_of_line
    modelname_command framerestore_command framevalue_command operator operator_tail negative
    and_not third_char dots dot product_operator bracket single_char identifier word_kind among
    string_const continued char_const lex_tokench lex_token_new lexerror set_ttype set_constval
    is_alpha is_digit is_space isident_start isident isxdigit_only lex_fgetc lex_getch lex_ungetch
    lex_try_trigraph lex_try_digraph
run_tokens k l = result_of (tokens_of some_config 60 k l)

tokens_run :
    run_tokens 5 comment_file
    ≡ some (
        (144, codes "        ")
        ∷ (129, codes "x")
        ∷ (131, codes "->")
        ∷ (129, codes "y")
        ∷ (1024, [])
        ∷ [])
unfolding run_tokens
tokens_run = refl

-- An integer behind a minus sign loses the sign if it has two digits.
unfoldable run_int : LexFile → Option ConstVal
unfolding run_tokens
run_int l = result_of ((do t ← lex_do some_config 60; k ← get; pure k.tok.constval) l)

negative_run :
    (run_int (preprocessed "-5") ≡ some (of_int (2 ^ 32 - 5)))
    × (run_int (preprocessed "-12") ≡ some (of_int 12))
unfolding run_int
negative_run = (refl, refl)

-- Code points of base 8 are refused, and a byte of 144 is taken for a token of white space.
octal_run : run_tokens 1 (lex_open_string (codes "\"\\{0101}\"") []) ≡ some ((1025, []) ∷ [])
unfolding run_tokens
octal_run = refl

white_byte_run :
    run_tokens 2 (record (preprocessed "") { input = 144 ∷ [] })
    ≡ some ((144, []) ∷ (1024, []) ∷ [])
unfolding run_tokens
white_byte_run = refl

-- A pragma with a parameter that is not known is read back in another order.
abbrev text_of : {A : Type 0} → Outcome A → Option (List ℕ)
text_of (done a l) = some (text l)
text_of overrun = none
text_of spent = none

unfoldable run_pragma_text : String → Option (List ℕ)
unfolding run_tokens text
run_pragma_text s = text_of (lex_try_pragma some_config 60 (lex_open_string (codes s) []))

pragma_run :
    (run_pragma_text "#pragma noref 1" ≡ some (codes "#pragma noref 1"))
    × (run_pragma_text "#pragma noref(1)\n" ≡ some (codes "#pragma 1 noref\n"))
    × (run_pragma_text "#pragma push(" ≡ none)
unfolding run_pragma_text
pragma_run = (refl, refl, refl)

-- A file of one byte is read as three others.
short_file_run : text_of (lex_open (codes "a") []) ≡ some (255 ∷ 255 ∷ 255 ∷ [])
unfolding lex_open skip_bom run_tokens text
short_file_run = refl
