-- ===== src/Lexer/Command.antt =====
-- The commands of model files in `lex_do`, which start with `$`.
use gmqcc.Prelude.{
  ℕ, Bool, true, ◌||◌, List, [], ◌∷◌, ◌++◌, Option, none, some, ◌==◌, if◌then◌else◌,
}
use gmqcc.Lexer.{
  LexFile, LexError, ConstVal, FrameMacro, of_int, Lex, lex_getch, get, modify, pure,
  hanging_command, framevalue_integer, framerestore_name, unknown_framename, modelname_parameter,
  invalid_frame_macro, ◌>>=◌, ◌>>◌,
}
use gmqcc.Lexer.Chars.{
  Config, is_digit, isident_start, lex_tokench, lex_token_new, lexerror, set_ttype, set_constval,
  is, token_intconst, token_error, token_fatal,
}
use gmqcc.Lexer.Frames.{
  line_ended, no_frame, frame_read, lex_finish_ident, lex_parse_frame, lex_finish_frames,
  skip_spaces, find_frame,
}
use gmqcc.Lexer.Pragma.{skip_line}
use gmqcc.Lexer.Digits.{lex_finish_digit}

-- What `lex_do` does behind a part of it: it returns a token, or it calls itself.
pub data Next : Type 0 where
  token : ℕ → Next
  again : Next

abbrev pub returning : ℕ → Lex Next
returning t = do kind ← set_ttype t; pure (token kind)

-- An error after which the next token is read.
abbrev pub reported : LexError → Lex Next
reported e = do lexerror e; pure again

abbrev pub int_of : ConstVal → Option ℕ
int_of (of_int i) = some i
int_of other = none

abbrev pub set_framevalue : Option ℕ → Lex Next
set_framevalue none = reported framevalue_integer
set_framevalue (some i) = do modify λ l. record l { framevalue = i }; pure again

unfoldable pub framevalue_command : Config → ℕ → Lex Next
framevalue_command o n = do
  first ← lex_getch
  ch ← skip_spaces n first
  if is_digit ch
      then (do
        lex_token_new
        kind ← lex_finish_digit o n ch
        l ← get
        if kind == token_intconst
            then set_framevalue (int_of l.tok.constval)
            else reported framevalue_integer)
      else reported framevalue_integer

abbrev pub restore_frame : Option (ℕ × FrameMacro) → Lex Next
restore_frame none = reported unknown_framename
restore_frame (some (i, m)) = do modify λ l. record l { framevalue = m.value }; pure again

unfoldable pub framerestore_command : ℕ → Lex Next
framerestore_command n = do
  lex_token_new
  rc ← lex_parse_frame n
  elim rc [
    | line_ended ↦ reported framerestore_name
    | no_frame ↦ returning token_fatal
    | frame_read ↦ (do l ← get; restore_frame (find_frame l.tok.value l.frames))
  ]

-- The model's name so far becomes a frame macro.
abbrev pub old_model : Option (List ℕ) → LexFile → List FrameMacro
old_model none l = l.frames
old_model (some name) l = l.frames ++ record { name = name; value = l.framevalue } ∷ []

unfoldable pub modelname_command : ℕ → Lex Next
modelname_command n = do
  lex_token_new
  rc ← lex_parse_frame n
  elim rc [
    | line_ended ↦ reported modelname_parameter
    | no_frame ↦ returning token_fatal
    | frame_read ↦ (do
      modify λ l. record l {
        frames = old_model l.modelname l;
        modelname = some l.tok.value;
        tok = record l.tok { value = [] };
      }
      pure again)
  ]

unfoldable pub rest_of_line : ℕ → Lex Next
rest_of_line n = do ch ← lex_getch; skip_line n ch; pure again

-- A name that is no command.
abbrev pub frame_macro : Option (ℕ × FrameMacro) → Lex Next
frame_macro none = reported invalid_frame_macro
frame_macro (some (i, m)) = do set_constval (of_int m.value); returning token_intconst

abbrev pub is_skipped : List ℕ → Bool
is_skipped v =
    is "cd" v || (is "origin" v || (is "base" v || (is "flags" v || (is "scale" v || is "skin" v))))

unfoldable pub run_command : Config → ℕ → List ℕ → Lex Next
run_command o n v =
    if is "frame" v || is "framesave" v
    then (do on ← lex_finish_frames o n; if on then pure again else returning token_error)
    else if is "framevalue" v
    then framevalue_command o n
    else if is "framerestore" v
    then framerestore_command n
    else if is "modelname" v
    then modelname_command n
    else if is "flush" v
    then (do modify λ l. record l { frames = [] }; rest_of_line n)
    else if is_skipped v
    then rest_of_line n
    else (do l ← get; frame_macro (find_frame v l.frames))

unfoldable pub dollar_command : Config → ℕ → Lex Next
dollar_command o n = do
  ch ← lex_getch
  if isident_start ch
      then (do lex_tokench ch; lex_finish_ident n true; l ← get; run_command o n l.tok.value)
      else reported hanging_command
