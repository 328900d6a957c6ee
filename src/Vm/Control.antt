-- ===== src/Vm/Control.antt =====
-- The instructions of the loop in exec.cpp that choose the next statement.
use gmqcc.Prelude.{
  ℕ, suc, ◌+◌, ◌-◌, ◌^◌, Bool, not, [], ◌∷◌, Option, none, some, ltb, leb, ◌==◌, if◌then◌else◌,
  length, get_elem?,
}
use gmqcc.Vm.State.{Statement, Function, error_once}
use gmqcc.Vm.Words.{is_negative, at_least, ◌>>=◌}
use gmqcc.Vm.Frames.{copy_words, enter_function, leave_function}
use gmqcc.Vm.Step.{Builtins, Machine, Outcome, next, cleanup, advance, is_true}

-- `st + d` for the signed 16 bits `d` of an operand.
unfoldable pub jump_target : ℕ → ℕ → Option ℕ
jump_target pc d =
    if ltb d (2 ^ 15)
    then some (pc + d)
    else if leb (2 ^ 16) (pc + d)
    then some (pc + d - 2 ^ 16)
    else none

-- A jump, which counts; `over` tells whether the count has reached its limit.
unfoldable pub jump : (ℕ → Bool) → ℕ → Machine → Option Outcome
unfolding jump_target
jump over d m = do
  pc ← jump_target m.pc d
  let count = suc m.jumps
  some (next (record { vm = if over count then error_once m.vm else m.vm; pc = pc; jumps = count }))

-- INSTR_IF and INSTR_IFNOT: a jump if the truth of OPA is `want`.
unfoldable pub branch : Bool → ℕ → Machine → Statement → Option Outcome
unfolding jump
branch want maxjumps m st = do
  a ← get_elem? m.vm.globals st.o1
  if (if want then is_true a else not (is_true a))
      then jump (λ n. leb maxjumps n) st.o2 m
      else advance m m.vm

-- INSTR_GOTO
unfoldable pub goto : Machine → Statement → Option Outcome
unfolding jump
goto m st = jump (λ n. n == 10_000_000) st.o1 m

-- INSTR_DONE and INSTR_RETURN. OFS_RETURN is 1.
unfoldable pub return_from : Machine → Statement → Option Outcome
return_from m st = do
  g ← copy_words 3 st.o1 1 m.vm.globals
  (stmt, vm) ← leave_function (record m.vm { globals = g })
  elim vm.stack [ [] ↦ some (cleanup vm) | f ∷ fs ↦ some (next (record m { vm = vm; pc = stmt })) ]

-- The call of a function that was found: a builtin has the negative of its number for an entry.
unfoldable pub call_found : Builtins → Machine → Function → Option Outcome
call_found builtins m func =
    if is_negative func.entry
    then elim (builtins (2 ^ 32 - func.entry)) [
      | none ↦ some (cleanup (error_once m.vm))
      | some builtin ↦ do
        vm ← builtin m.vm
        if vm.vmerror == 0 then advance m vm else some (cleanup vm)
    ]
    else (do
      (entry, vm) ← enter_function func m.vm
      if vm.vmerror == 0 then some (next (record m { vm = vm; pc = entry })) else some (cleanup vm))

-- INSTR_CALL0 to INSTR_CALL8 with `n` arguments. A null function counts two errors, and a negative
-- one is not caught.
unfoldable pub call : Builtins → ℕ → Machine → Statement → Option Outcome
unfolding call_found
call builtins n m st = do
  a ← get_elem? m.vm.globals st.o1
  let vm = record m.vm { argc = n }
  if a == 0
      then some (cleanup (error_once (error_once vm)))
      else if at_least a (length vm.functions)
      then some (cleanup (error_once vm))
      else if is_negative a
      then none
      else (do
        func ← get_elem? vm.functions a
        call_found builtins (record m { vm = record vm { statement = suc m.pc } }) func)
