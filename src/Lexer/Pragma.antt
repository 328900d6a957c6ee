-- ===== src/Lexer/Pragma.antt =====
-- `lex_try_pragma`: the lines `#pragma push(line)`, `pop(line)`, `file(...)` and `line(...)`.
use gmqcc.Prelude.{
  ℕ, zero, suc, ◌-◌, ◌%◌, ◌^◌, Bool, true, false, not, ◌&&◌, ◌||◌, List, [], ◌∷◌, Option, none,
  some, leb, ◌==◌, if◌then◌else◌,
}
use gmqcc.Lexer.{
  LexFile, Lex, lex_getch, lex_ungetch, up, down, end_of_file, get, modify, pure, out_of_fuel,
  ◌>>=◌, ◌>>◌,
}
use gmqcc.Lexer.Chars.{Config, between, is}

-- The characters that a loop takes, at most `n` of them, from `ch` on, and the one behind them.
unfoldable pub collect : (ℕ → Bool) → ℕ → ℕ → Lex (List ℕ × ℕ)
collect takes zero ch = pure ([], ch)
collect takes (suc n) ch =
    if takes ch
    then (do next ← lex_getch; (cs, end) ← collect takes n next; pure (ch % 2 ^ 8 ∷ cs, end))
    else pure ([], ch)

abbrev pub is_lower : ℕ → Bool
is_lower = between b'a' b'z'

abbrev pub in_param : ℕ → Bool
in_param ch = not (ch == b')') && not (ch == b'\n')

-- Puts characters back so that they are read in their order.
unfoldable pub put_back : List ℕ → Lex (Unit {0})
put_back [] = pure tt
put_back (c ∷ cs) = do put_back cs; lex_ungetch c

-- A part that was read, and the space that is put before it.
unfoldable pub put_part : Option (List ℕ) → Lex (Unit {0})
put_part none = pure tt
put_part (some cs) = do put_back cs; lex_ungetch b' '

abbrev pub set_line : ℕ → Lex (Unit {0})
set_line line = modify λ l. record l { line = line }

-- The label `unroll`.
unfoldable pub unroll : Option (List ℕ) → Option (List ℕ) → List ℕ → ℕ → Lex Bool
unroll command param pragma line = do
  put_part command
  put_part param
  put_back pragma
  lex_ungetch b'#'
  set_line line
  pure false

-- What a command makes of `lex->line`, or `none` where it is unrolled.
unfoldable pub run_pragma : Config → List ℕ → List ℕ → ℕ → LexFile → Option (ℕ × LexFile)
run_pragma o command param line l =
    if is "push" command
    then (if is "line" param
        then some (
          (if up l.push_line == 1 then down line else line),
          record l { push_line = up l.push_line },
        )
        else none)
    else if is "pop" command
    then (if is "line" param
        then some (
          (if leb l.push_line 1 then down line else line),
          record l { push_line = l.push_line - 1 },
        )
        else none)
    else if is "file" command
    then some (line, record l { framevalue = 0; name = param })
    else if is "line" command
    then some (down (o.strtol param 0), l)
    else none

-- `while (ch != '\n' && ch != EOF) ch = lex_getch(lex);`, on fuel.
unfoldable pub skip_line : ℕ → ℕ → Lex (Unit {0})
skip_line zero ch = out_of_fuel
skip_line (suc n) ch =
    if ch == b'\n' || ch == end_of_file then pure tt else (do next ← lex_getch; skip_line n next)

abbrev pub end_pragma : Option (ℕ × LexFile) → ℕ → List ℕ → List ℕ → List ℕ → ℕ → ℕ → Lex Bool
end_pragma none n command param pragma ch line = unroll (some command) (some param) pragma line
end_pragma (some (line', l')) n command param pragma ch line = do
  modify λ _. l'
  set_line line'
  skip_line n ch
  pure true

unfoldable pub pragma_param : Config → ℕ → List ℕ → List ℕ → ℕ → Lex Bool
pragma_param o n command pragma line = do
  first ← lex_getch
  (param, ch) ← collect in_param 1024 first
  if ch == b')'
      then (do
        l ← get
        end_pragma (run_pragma o command param line l) n command param pragma ch line)
      else (do lex_ungetch ch; unroll (some command) (some param) pragma line)

unfoldable pub pragma_command : Config → ℕ → List ℕ → ℕ → Lex Bool
pragma_command o n pragma line = do
  first ← lex_getch
  (command, ch) ← collect is_lower 32 first
  if ch == b'('
      then pragma_param o n command pragma line
      else (do lex_ungetch ch; unroll (some command) none pragma line)

unfoldable pub pragma_word : Config → ℕ → ℕ → Lex Bool
pragma_word o n line = do
  first ← lex_getch
  (pragma, ch) ← collect is_lower 8 first
  if ch == b' ' && is "pragma" pragma
      then pragma_command o n pragma line
      else (do lex_ungetch ch; unroll none none pragma line)

-- `n` bounds the skipping of the rest of a line.
unfoldable pub lex_try_pragma : Config → ℕ → Lex Bool
lex_try_pragma o n = do
  l ← get
  if l.preprocessing then pure false else (do
    ch ← lex_getch
    if ch == b'#' then pragma_word o n l.line else (do lex_ungetch ch; pure false))
