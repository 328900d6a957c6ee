-- ===== src/Vm/Access.antt =====
-- The instructions of the loop in exec.cpp that read and write the words of entities, with
-- `prog_entfield`.
pub mod Words
use gmqcc.Prelude.{
  ℕ, zero, suc, ◌+◌, ◌*◌, ◌%◌, ◌^◌, Bool, true, false, not, ◌&&◌, ◌||◌, List, [], ◌∷◌, Option, none,
  some, ltb, leb, ◌==◌, if◌then◌else◌, length, get_elem?,
}
use gmqcc.Vm.State.{Vm, Statement, error_once}
use gmqcc.Vm.Words.{is_negative, at_least, ◌>>=◌, ◌>>◌, guard, write?}
use gmqcc.Vm.Entities.{get_edict}
use gmqcc.Vm.Step.{Floats, Machine, Outcome, advance, fail_with, put_c}

-- `OPA->edict < 0 || OPA->edict >= prog->entities`
abbrev pub bad_edict : ℕ → Vm → Bool
bad_edict e vm = is_negative e || at_least e vm.entities

-- INSTR_LOAD_F and those like it. The field is compared as an unsigned number.
unfoldable pub load_word : Machine → Statement → Option Outcome
load_word m st = do
  e ← get_elem? m.vm.globals st.o1
  if bad_edict e m.vm then fail_with m else (do
    f ← get_elem? m.vm.globals st.o2
    if leb m.vm.entityfields f then fail_with m else (do
      (ed, vm) ← get_edict e m.vm
      w ← get_elem? vm.entitydata (ed + f)
      g ← write? vm.globals st.o3 w
      advance m (record vm { globals = g })))

-- Copies three words of an entity to the globals.
unfoldable pub fetch_vector : ℕ → List ℕ → ℕ → ℕ → List ℕ → Option (List ℕ)
fetch_vector zero words src dst g = some g
fetch_vector (suc n) words src dst g = do
  w ← get_elem? words src
  g' ← write? g dst w
  fetch_vector n words (suc src) (suc dst) g'

unfoldable pub load_vector : Machine → Statement → Option Outcome
unfolding fetch_vector
load_vector m st = do
  e ← get_elem? m.vm.globals st.o1
  if bad_edict e m.vm then fail_with m else (do
    f ← get_elem? m.vm.globals st.o2
    if is_negative f || ltb m.vm.entityfields (f + 3) then fail_with m else (do
      (ed, vm) ← get_edict e m.vm
      g ← fetch_vector 3 vm.entitydata (ed + f) st.o3 vm.globals
      advance m (record vm { globals = g })))

-- INSTR_ADDRESS: the index of the word among the words of all entities.
unfoldable pub address : Machine → Statement → Option Outcome
address m st = do
  e ← get_elem? m.vm.globals st.o1
  if bad_edict e m.vm then fail_with m else (do
    f ← get_elem? m.vm.globals st.o2
    if leb m.vm.entityfields f then fail_with m else (do
      (ed, vm) ← get_edict e m.vm
      g ← write? vm.globals st.o3 ((ed + f) % 2 ^ 32)
      advance m (record vm { globals = g })))

-- Whether `prog_entfield` finds a field with the offset.
unfoldable pub ent_field : ℕ → List ℕ → Bool
ent_field off [] = false
ent_field off (f ∷ fs) = if f == off then true else ent_field off fs

-- The report of a write to the world entity, which names the field; a field that is not found is a
-- null pointer. The write follows all the same.
unfoldable pub check_world : ℕ → Vm → Option Vm
unfolding ent_field
check_world p vm =
    if ltb p vm.entityfields && not vm.allowworldwrites
    then (if ent_field p vm.fields then some (error_once vm) else none)
    else some vm

-- INSTR_STOREP_F and those like it.
unfoldable pub store_word : Machine → Statement → Option Outcome
unfolding check_world
store_word m st = do
  p ← get_elem? m.vm.globals st.o2
  if is_negative p || at_least p (length m.vm.entitydata) then fail_with m else (do
    vm ← check_world p m.vm
    w ← get_elem? vm.globals st.o1
    d ← write? vm.entitydata p w
    advance m (record vm { entitydata = d }))

unfoldable pub store_vector : Machine → Statement → Option Outcome
unfolding check_world fetch_vector
store_vector m st = do
  p ← get_elem? m.vm.globals st.o2
  if is_negative p || at_least (p + 2) (length m.vm.entitydata) then fail_with m else (do
    vm ← check_world p m.vm
    d ← fetch_vector 3 vm.globals st.o1 p vm.entitydata
    advance m (record vm { entitydata = d }))

-- INSTR_STATE
unfoldable pub state_frame : Floats → Machine → Statement → Option Outcome
state_frame fl m st = if not m.vm.supports_state then fail_with m else (do
  self ← get_elem? m.vm.globals m.vm.global_self
  (ed, vm) ← get_edict self m.vm
  think ← get_elem? vm.globals st.o2
  d ← write? vm.entitydata (ed + vm.field_think) think
  frame ← get_elem? vm.globals st.o1
  d' ← write? d (ed + vm.field_frame) frame
  time ← get_elem? vm.globals vm.global_time
  d'' ← write? d' (ed + vm.field_nextthink) (fl.plus_tenth time)
  advance m (record vm { entitydata = d'' }))
