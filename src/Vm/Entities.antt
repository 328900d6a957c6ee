-- ===== src/Vm/Entities.antt =====
-- Entities: `prog_getedict`, `prog_spawn_entity` and `prog_free_entity` of exec.cpp. The pool tells
-- which entities are in use; the words of entity `e` start at `entityfields * e` of `entitydata`.
pub mod Pool
use gmqcc.Prelude.{
  ℕ, zero, suc, ◌+◌, ◌*◌, Bool, true, false, not, List, [], ◌∷◌, ◌++◌, Option, none, some, ltb, leb,
  ◌==◌, if◌then◌else◌, length, get_elem?, set, replicate,
}
use gmqcc.Vm.State.{Vm, error_once}
use gmqcc.Vm.Words.{is_negative, at_least, ◌>>=◌, ◌>>◌, guard, write_block}

-- Where the words of the entity start; a negative number is not caught, and has no words.
unfoldable pub get_edict : ℕ → Vm → Option (ℕ × Vm)
get_edict e vm =
    if at_least e (length vm.entitypool)
    then some (vm.entityfields * 0, error_once vm)
    else if is_negative e
    then none
    else some (vm.entityfields * e, vm)

-- The first entity of the pool that is not in use, from the number `e` on.
unfoldable pub find_free : ℕ → List Bool → Option ℕ
find_free e [] = none
find_free e (true ∷ pool) = find_free (suc e) pool
find_free e (false ∷ pool) = some e

-- `memset(data, 0, ...)` of one entity.
unfoldable pub clear_entity : ℕ → Vm → Option Vm
clear_entity e vm = do
  m ← write_block vm.entitydata (vm.entityfields * e) (replicate vm.entityfields 0)
  some (record vm { entitydata = m })

-- A new entity at the end, whose words are 0 already.
unfoldable pub append_entity : Vm → Vm
append_entity vm = record vm {
  entitypool = vm.entitypool ++ true ∷ [];
  entities = suc vm.entities;
  entitydata = vm.entitydata ++ replicate vm.entityfields 0;
}

-- The entity that the search found, or else a new one.
unfoldable pub spawn_at : Option ℕ → Vm → Option (ℕ × Vm)
spawn_at (some e) vm = do vm' ← clear_entity e vm; some (e, vm')
spawn_at none vm = some (length vm.entitypool, append_entity vm)

unfoldable pub spawn_entity : Vm → Option (ℕ × Vm)
spawn_entity vm = spawn_at (find_free 0 vm.entitypool) vm

unfoldable pub free_entity : ℕ → Vm → Option Vm
free_entity e vm =
    if e == 0
    then some (error_once vm)
    else if at_least e (length vm.entitypool)
    then some (error_once vm)
    else elim (get_elem? vm.entitypool e) [
      | none ↦ none
      | some false ↦ some (error_once vm)
      | some true ↦ some (record vm { entitypool = set vm.entitypool e false })
    ]
