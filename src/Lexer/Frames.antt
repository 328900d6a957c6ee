-- ===== src/Lexer/Frames.antt =====
-- Identifiers, and the frame macros of model files: `lex_finish_ident`, `lex_parse_frame` and
-- `lex_finish_frames`.
use gmqcc.Prelude.{
  ℕ, zero, suc, ◌+◌, ◌%◌, ◌^◌, Bool, true, false, not, ◌&&◌, List, [], ◌∷◌, ◌++◌, Option, none,
  some, ◌==◌, if◌then◌else◌, set,
}
use gmqcc.Lexer.{
  LexFile, FrameMacro, Lex, lex_getch, lex_ungetch, end_of_file, get, modify, pure, out_of_fuel,
  invalid_framename, ◌>>=◌, ◌>>◌,
}
use gmqcc.Lexer.Chars.{
  Config, is_space, isident, isident_start, lex_tokench, lex_token_new, lexerror, same,
  warn_frame_macros,
}

unfoldable pub take_ident : Bool → ℕ → ℕ → Lex (Unit {0})
take_ident allow_dot zero ch = out_of_fuel
take_ident allow_dot (suc n) ch =
    if not (ch == end_of_file) && isident ch allow_dot
    then (do lex_tokench ch; next ← lex_getch; take_ident allow_dot n next)
    else lex_ungetch ch

-- It always succeeds.
unfoldable pub lex_finish_ident : ℕ → Bool → Lex (Unit {0})
lex_finish_ident n allow_dot = do ch ← lex_getch; take_ident allow_dot n ch

-- White space of one line.
unfoldable pub skip_spaces : ℕ → ℕ → Lex ℕ
skip_spaces zero ch = out_of_fuel
skip_spaces (suc n) ch =
    if not (ch == end_of_file) && (not (ch == b'\n') && is_space ch)
    then (do next ← lex_getch; skip_spaces n next)
    else pure ch

-- What `lex_parse_frame` returns: 1, -1 and 0.
pub data FrameRead : Type 0 where
  line_ended no_frame frame_read : FrameRead

unfoldable pub lex_parse_frame : ℕ → Lex FrameRead
lex_parse_frame n = do
  lex_token_new
  first ← lex_getch
  ch ← skip_spaces n first
  if ch == b'\n'
      then pure line_ended
      else if isident_start ch
      then (do lex_tokench ch; lex_finish_ident n true; pure frame_read)
      else (do lexerror invalid_framename; pure no_frame)

-- The first frame macro of a name, by its position.
unfoldable pub find_frame : List ℕ → List FrameMacro → Option (ℕ × FrameMacro)
find_frame v [] = none
find_frame v (m ∷ ms) = if same v m.name then some (0, m) else later (find_frame v ms)
  where
    later : Option (ℕ × FrameMacro) → Option (ℕ × FrameMacro)
    later none = none
    later (some (i, k)) = some (suc i, k)

-- `lex->framevalue++`
abbrev pub next_value : LexFile → ℕ
next_value l = (l.framevalue + 1) % 2 ^ 32

-- One name is entered; the result is whether the list goes on.
unfoldable pub define_frame : Config → Option (ℕ × FrameMacro) → Lex Bool
define_frame o (some (i, m)) = do
  modify λ l. record l {
    frames = set l.frames i (record m { value = l.framevalue });
    framevalue = next_value l;
  }
  pure (not (o.lexwarn warn_frame_macros))
define_frame o none = do
  modify λ l. record l {
    frames = l.frames ++ record { name = l.tok.value; value = l.framevalue } ∷ [];
    framevalue = next_value l;
    tok = record l.tok { value = [] };
  }
  pure true

-- Whether the list was read to the end of its line.
unfoldable pub lex_finish_frames : Config → ℕ → Lex Bool
lex_finish_frames o zero = out_of_fuel
lex_finish_frames o (suc n) = do
  rc ← lex_parse_frame (suc n)
  elim rc [
    | line_ended ↦ pure true
    | no_frame ↦ pure false
    | frame_read ↦ (do
      l ← get
      on ← define_frame o (find_frame l.tok.value l.frames)
      if on then lex_finish_frames o n else pure false)
  ]
