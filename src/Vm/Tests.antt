-- ===== src/Vm/Tests.antt =====
-- Runs of the virtual machine, and the theorems at concrete inputs.
use gmqcc.Prelude.{
  ℕ, ◌^◌, ◌<◌, ◌≡◌, ◌≢◌, refl, List, [], ◌∷◌, some, arith, get_elem?, ◌⊎◌, inl, drop,
}
use gmqcc.Vm.Samples.{words, no_builtins, statement, some_function, some_vm}
use gmqcc.Vm.State.{Vm, error_once}
use gmqcc.Vm.Words.{write?, read_block, write_block}
use gmqcc.Vm.Entities.{
  get_edict, find_free, clear_entity, append_entity, spawn_at, spawn_entity, free_entity,
}
use gmqcc.Vm.Entities.Pool.{
  IsPool, IsSpawned, IsFreed, CannotFree, spawn_entity-IsSpawned, spawn_entity_again,
  free_entity-IsFreed,
}
use gmqcc.Vm.Strings.{c_string, get_string, temp_position, tempstring}
use gmqcc.Vm.Strings.Temp.{HasArea, get_string-tempstring, tempstring_overwrites}
use gmqcc.Vm.Frames.{copy_params, enter_function, leave_function}
use gmqcc.Vm.Frames.Balance.{
  IsCallable, IsEntered, IsReturned, enter_function-IsEntered, leave-enter_function,
}
use gmqcc.Vm.Opcodes.{decode}
use gmqcc.Vm.Step.{Machine, next, put_c, unary, binary, to_vector, store_words}
use gmqcc.Vm.Access.{load_word, store_word}
use gmqcc.Vm.Access.Words.{IsWritable, load-store_word}
use gmqcc.Vm.Control.{branch, goto, return_from}
use gmqcc.Vm.Exec.{
  Run, finished, undefined, out_of_fuel, clean_up, after_turn, execute, step, run, prog_exec,
}
use gmqcc.Vm.Exec.Program.{IsAtRest, prog_exec-IsAtRest}

program : Unit {0}
unfolding write? read_block write_block get_edict find_free clear_entity append_entity spawn_at
    spawn_entity free_entity c_string get_string temp_position tempstring copy_params enter_function
    leave_function decode put_c unary binary to_vector store_words load_word store_word branch goto
    return_from clean_up after_turn execute step run prog_exec
program = tt

some_vm-IsPool : IsPool some_vm
some_vm-IsPool = record { counted = refl; sized = refl }

some_vm-HasArea : HasArea some_vm
some_vm-HasArea = record { inside = omega arith; behind = omega arith }

globals_of : Run → List ℕ
globals_of (finished vm) = vm.globals
globals_of undefined = []
globals_of out_of_fuel = []

-- The function doubles its second argument.
prog_exec_runs :
    get_elem? (globals_of (prog_exec words no_builtins 100 10 some_function some_vm)) 2 ≡ some 40
unfolding program globals_of
prog_exec_runs = refl

spawn_entity_runs :
    spawn_entity some_vm ≡ some (1, record some_vm { entitydata = 0 ∷ 0 ∷ 0 ∷ 0 ∷ 0 ∷ 0 ∷ [] })
unfolding program
spawn_entity_runs = refl

spawn_entity-IsSpawned_example :
    (e : ℕ) × (vm' : Vm) × (spawn_entity some_vm ≡ some (e, vm')) × IsSpawned some_vm e vm'
spawn_entity-IsSpawned_example = spawn_entity-IsSpawned some_vm some_vm-IsPool

spawn_entity_again_example :
    (vm'' : Vm) × (spawn_entity (record some_vm { entitydata = 0 ∷ 0 ∷ 0 ∷ 0 ∷ 0 ∷ 0 ∷ [] })
      ≡ some (1, vm''))
spawn_entity_again_example =
    spawn_entity_again some_vm (record some_vm { entitydata = 0 ∷ 0 ∷ 0 ∷ 0 ∷ 0 ∷ 0 ∷ [] }) 1
      some_vm-IsPool spawn_entity_runs (omega arith)

free_entity-IsFreed_example :
    ((vm' : Vm) × (free_entity 1 some_vm ≡ some vm') × IsFreed some_vm 1 vm')
    ⊎ (CannotFree some_vm 1 × (free_entity 1 some_vm ≡ some (error_once some_vm)))
free_entity-IsFreed_example = free_entity-IsFreed some_vm 1 (omega arith)

abbrev hi : List ℕ
hi = b'h' ∷ b'i' ∷ []

get_string-tempstring_example :
    (at : ℕ) × (vm' : Vm) × (tempstring hi some_vm ≡ some (at, vm'))
    × (get_string at vm' ≡ some hi)
    × HasArea vm'
    × ((i : ℕ) → i < 2 → get_elem? vm'.strings i ≡ get_elem? some_vm.strings i)
get_string-tempstring_example =
    get_string-tempstring hi some_vm some_vm-HasArea (omega arith) (omega arith)

tempstring_overwrites_example :
    (vm' vm'' : Vm) × (tempstring hi some_vm ≡ some (2, vm'))
    × (tempstring (b'x' ∷ []) vm' ≡ some (2, vm''))
    × (c_string (drop 2 vm'.strings) ≡ some hi)
    × (c_string (drop 2 vm''.strings) ≡ some (b'x' ∷ []))
tempstring_overwrites_example =
    tempstring_overwrites hi (b'x' ∷ []) some_vm some_vm-HasArea (omega arith) (omega arith)
      (omega arith) (omega arith) (omega arith)

some_function-IsCallable : IsCallable some_function some_vm
some_function-IsCallable = record {
  sizes = omega arith;
  behind = omega arith;
  hold = omega arith;
  inside = omega arith;
}

enter_function-IsEntered_example :
    (vm' : Vm) × (enter_function some_function some_vm ≡ some (0, vm'))
    × IsEntered some_function some_vm vm'
enter_function-IsEntered_example =
    enter_function-IsEntered some_function some_vm some_function-IsCallable

abbrev entered_vm : Vm
entered_vm = enter_function-IsEntered_example.0

leave-enter_function_example :
    (vm₃ : Vm) × (leave_function entered_vm ≡ some (9, vm₃))
    × IsReturned some_function some_vm entered_vm vm₃
leave-enter_function_example =
    leave-enter_function some_function some_vm entered_vm entered_vm some_function-IsCallable
      enter_function-IsEntered_example.1 refl refl enter_function-IsEntered_example.2.same_length

prog_exec-IsAtRest_example :
    let r = prog_exec words no_builtins 100 (2 ^ 40) some_function some_vm in
    (r ≡ undefined) ⊎ ((vm' : Vm) × (r ≡ finished vm') × IsAtRest some_vm vm')
prog_exec-IsAtRest_example =
    prog_exec-IsAtRest words no_builtins 100 (2 ^ 40) some_function some_vm (omega arith)
      (omega arith) (unfold decode in (refl, (refl, tt))) refl some_vm-IsPool some_vm-HasArea

-- Entity 1, field 2, with the word 77; the globals hold the operands.
abbrev field_vm : Vm
field_vm = record some_vm { globals = 77 ∷ 5 ∷ 1 ∷ 2 ∷ 0 ∷ [] }

abbrev field_machine : Machine
field_machine = record { vm = field_vm; pc = 0; jumps = 0 }

field_vm-IsWritable : IsWritable field_vm 1 2
field_vm-IsWritable = record {
  pool = record { counted = refl; sized = refl };
  listed = omega arith;
  field = omega arith;
  allowed = inl (omega arith);
  entity_range = omega arith;
  range = omega arith;
}

load-store_word_example :
    (m' m'' : Machine) × (store_word field_machine (statement 37 0 1 0) ≡ some (next m'))
    × (load_word m' (statement 24 2 3 4) ≡ some (next m''))
    × (get_elem? m''.vm.globals 4 ≡ some 77)
    × ((i : ℕ) → 5 ≢ i → get_elem? m''.vm.entitydata i ≡ get_elem? field_vm.entitydata i)
load-store_word_example =
    load-store_word field_machine (statement 37 0 1 0) (statement 24 2 3 4) 1 2 77
      field_vm-IsWritable refl refl refl refl (omega arith)
