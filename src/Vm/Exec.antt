-- ===== src/Vm/Exec.antt =====
-- The switch of the loop in exec.cpp, the loop, and `prog_exec`.
pub mod Effect
pub mod Handlers
pub mod Access
pub mod Turn
pub mod Ends
pub mod Program
use Prim.Native.Nat.{bit_and, bit_or}
use gmqcc.Prelude.{
  ℕ, zero, suc, Bool, true, false, not, ◌&&◌, ◌||◌, List, [], ◌∷◌, Option, none, some, ◌==◌,
  if◌then◌else◌, get_elem?,
}
use gmqcc.Vm.State.{Vm, Statement, Function, error_once}
use gmqcc.Vm.Words.{◌>>=◌}
use gmqcc.Vm.Strings.{get_string}
use gmqcc.Vm.Frames.{enter_function}
use gmqcc.Vm.Opcodes.{
  Opcode, decode, illegal, instr_done, instr_mul_f, instr_mul_v, instr_mul_fv, instr_mul_vf,
  instr_div_f, instr_add_f, instr_add_v, instr_sub_f, instr_sub_v, instr_eq_f, instr_eq_v,
  instr_eq_s, instr_eq_e, instr_eq_fnc, instr_ne_f, instr_ne_v, instr_ne_s, instr_ne_e,
  instr_ne_fnc, instr_le, instr_ge, instr_lt, instr_gt, instr_load_f, instr_load_v, instr_load_s,
  instr_load_ent, instr_load_fld, instr_load_fnc, instr_address, instr_store_f, instr_store_v,
  instr_store_s, instr_store_ent, instr_store_fld, instr_store_fnc, instr_storep_f, instr_storep_v,
  instr_storep_s, instr_storep_ent, instr_storep_fld, instr_storep_fnc, instr_return, instr_not_f,
  instr_not_v, instr_not_s, instr_not_ent, instr_not_fnc, instr_if, instr_ifnot, instr_call0,
  instr_call1, instr_call2, instr_call3, instr_call4, instr_call5, instr_call6, instr_call7,
  instr_call8, instr_state, instr_goto, instr_and, instr_or, instr_bitand, instr_bitor,
}
use gmqcc.Vm.Step.{
  Floats, Builtins, Machine, Outcome, next, cleanup, fail_with, of_bool, is_true, put_c, unary,
  binary, compare_strings, vector_at, from_vectors, to_vector, scale_vector, store_words,
}
use gmqcc.Vm.Access.{load_word, load_vector, address, store_word, store_vector, state_frame}
use gmqcc.Vm.Control.{branch, goto, return_from, call}

-- INSTR_MUL_V, from the left.
unfoldable pub dot : Floats → ℕ × ℕ × ℕ → ℕ × ℕ × ℕ → ℕ
dot fl a b = fl.add (fl.add (fl.mul a.0 b.0) (fl.mul a.1 b.1)) (fl.mul a.2 b.2)

-- INSTR_DIV_F
unfoldable pub divide : Floats → ℕ → ℕ → ℕ
divide fl a b = if fl.eq b 0 then 0 else fl.div a b

unfoldable pub same_vector : Floats → ℕ × ℕ × ℕ → ℕ × ℕ × ℕ → Bool
same_vector fl a b = fl.eq a.0 b.0 && fl.eq a.1 b.1 && fl.eq a.2 b.2

-- INSTR_NOT_V
unfoldable pub not_vector : Floats → Machine → Statement → Option Outcome
not_vector fl m st = do
  a ← vector_at m.vm.globals st.o1
  put_c m st (of_bool (same_vector fl a (0, 0, 0)))

abbrev is_empty_string : List ℕ → Bool
is_empty_string [] = true
is_empty_string (b ∷ bs) = false

-- INSTR_NOT_S: the null string, or one that starts with the byte 0.
unfoldable pub not_string : Machine → Statement → Option Outcome
not_string m st = do
  a ← get_elem? m.vm.globals st.o1
  if a == 0
      then put_c m st (of_bool true)
      else (do s ← get_string a m.vm; put_c m st (of_bool (is_empty_string s)))

-- How a run ends: with a state, without a defined result, or not within its fuel.
pub data Run : Type 0 where
  finished : Vm → Run
  undefined out_of_fuel : Run

-- The end of `prog_exec`.
unfoldable pub clean_up : Run → Run
clean_up (finished vm) = finished (record vm { localstack = []; stack = [] })
clean_up undefined = undefined
clean_up out_of_fuel = out_of_fuel

-- What follows a turn of the loop; `rest` is the rest of the loop.
unfoldable pub after_turn : (Machine → Run) → Option Outcome → Run
after_turn rest none = undefined
after_turn rest (some (cleanup vm)) = finished vm
after_turn rest (some (next m)) = rest m

module _ (fl : Floats) (builtins : Builtins) (maxjumps : ℕ) where
  unfoldable pub execute : Opcode → Machine → Statement → Option Outcome
  execute instr_done m st = return_from m st
  execute instr_mul_f m st = binary fl.mul m st
  execute instr_mul_v m st = from_vectors (dot fl) m st
  execute instr_mul_fv m st = scale_vector fl.mul st.o1 st.o2 m st
  execute instr_mul_vf m st = scale_vector fl.mul st.o2 st.o1 m st
  execute instr_div_f m st = binary (divide fl) m st
  execute instr_add_f m st = binary fl.add m st
  execute instr_add_v m st = to_vector fl.add m st
  execute instr_sub_f m st = binary fl.sub m st
  execute instr_sub_v m st = to_vector fl.sub m st
  execute instr_eq_f m st = binary (λ a b. of_bool (fl.eq a b)) m st
  execute instr_eq_v m st = from_vectors (λ a b. of_bool (same_vector fl a b)) m st
  execute instr_eq_s m st = compare_strings (λ b. b) m st
  execute instr_eq_e m st = binary (λ a b. of_bool (a == b)) m st
  execute instr_eq_fnc m st = binary (λ a b. of_bool (a == b)) m st
  execute instr_ne_f m st = binary (λ a b. of_bool (not (fl.eq a b))) m st
  execute instr_ne_v m st = from_vectors (λ a b. of_bool (not (same_vector fl a b))) m st
  execute instr_ne_s m st = compare_strings not m st
  execute instr_ne_e m st = binary (λ a b. of_bool (not (a == b))) m st
  execute instr_ne_fnc m st = binary (λ a b. of_bool (not (a == b))) m st
  execute instr_le m st = binary (λ a b. of_bool (fl.le a b)) m st
  execute instr_ge m st = binary (λ a b. of_bool (fl.le b a)) m st
  execute instr_lt m st = binary (λ a b. of_bool (fl.lt a b)) m st
  execute instr_gt m st = binary (λ a b. of_bool (fl.lt b a)) m st
  execute instr_load_f m st = load_word m st
  execute instr_load_v m st = load_vector m st
  execute instr_load_s m st = load_word m st
  execute instr_load_ent m st = load_word m st
  execute instr_load_fld m st = load_word m st
  execute instr_load_fnc m st = load_word m st
  execute instr_address m st = address m st
  execute instr_store_f m st = store_words 1 m st
  execute instr_store_v m st = store_words 3 m st
  execute instr_store_s m st = store_words 1 m st
  execute instr_store_ent m st = store_words 1 m st
  execute instr_store_fld m st = store_words 1 m st
  execute instr_store_fnc m st = store_words 1 m st
  execute instr_storep_f m st = store_word m st
  execute instr_storep_v m st = store_vector m st
  execute instr_storep_s m st = store_word m st
  execute instr_storep_ent m st = store_word m st
  execute instr_storep_fld m st = store_word m st
  execute instr_storep_fnc m st = store_word m st
  execute instr_return m st = return_from m st
  execute instr_not_f m st = unary (λ a. of_bool (not (is_true a))) m st
  execute instr_not_v m st = not_vector fl m st
  execute instr_not_s m st = not_string m st
  execute instr_not_ent m st = unary (λ a. of_bool (a == 0)) m st
  execute instr_not_fnc m st = unary (λ a. of_bool (a == 0)) m st
  execute instr_if m st = branch true maxjumps m st
  execute instr_ifnot m st = branch false maxjumps m st
  execute instr_call0 m st = call builtins 0 m st
  execute instr_call1 m st = call builtins 1 m st
  execute instr_call2 m st = call builtins 2 m st
  execute instr_call3 m st = call builtins 3 m st
  execute instr_call4 m st = call builtins 4 m st
  execute instr_call5 m st = call builtins 5 m st
  execute instr_call6 m st = call builtins 6 m st
  execute instr_call7 m st = call builtins 7 m st
  execute instr_call8 m st = call builtins 8 m st
  execute instr_state m st = state_frame fl m st
  execute instr_goto m st = goto m st
  execute instr_and m st = binary (λ a b. of_bool (is_true a && is_true b)) m st
  execute instr_or m st = binary (λ a b. of_bool (is_true a || is_true b)) m st
  execute instr_bitand m st = binary (λ a b. fl.of_int (bit_and (fl.to_int a) (fl.to_int b))) m st
  execute instr_bitor m st = binary (λ a b. fl.of_int (bit_or (fl.to_int a) (fl.to_int b))) m st
  execute illegal m st = fail_with m

  -- The turn at the statement `pc`.
  unfoldable pub step : Machine → Option Outcome
  step m = do st ← get_elem? m.vm.code m.pc; execute (decode st.opcode) m st

  -- The loop, with fuel for its turns.
  unfoldable pub run : ℕ → Machine → Run
  run zero m = out_of_fuel
  run (suc fuel) m = elim (m.vm.vmerror == 0) [
    | false ↦ finished m.vm
    | true ↦ after_turn (run fuel) (step m)
  ]

  -- The loop from the entry of the function on.
  unfoldable pub enter_and_run : ℕ → Option (ℕ × Vm) → Run
  enter_and_run fuel none = undefined
  enter_and_run fuel (some (entry, vm)) = run fuel (record { vm = vm; pc = entry; jumps = 0 })

  -- `prog_exec`. The function returned true if `vmerror` is 0 in the end.
  unfoldable pub prog_exec : ℕ → Function → Vm → Run
  unfolding enter_and_run
  prog_exec fuel func vm =
      clean_up (enter_and_run fuel (enter_function func (record vm { vmerror = 0 })))
