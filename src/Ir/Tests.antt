-- ===== src/Ir/Tests.antt =====
-- Runs of the life ranges and of the allocator, and the theorems at concrete inputs.
use gmqcc.Prelude.{
  ℕ, ◌≡◌, refl, Bool, true, false, not, ◌||◌, List, [], ◌∷◌, arith, ◌↔◌, ◌⊎◌, ◌==◌, none, some,
  if◌then◌else◌,
}
use gmqcc.Ir.Life.{LifeEntry, lives, set_alive, merge_life, values_overlap}
use gmqcc.Ir.Life.Ranges.{IsLifeFrom}
use gmqcc.Ir.Life.Alive.{set_alive-lives}
use gmqcc.Ir.Life.Merge.{merge_life-lives}
use gmqcc.Ir.Life.Overlap.{Meet, values_overlap-Meet}
use gmqcc.Ir.Allocator.{
  LocalValue, Config, allocate_locals, allocate_from, assign_all, alloc_in, assign_in,
  allocator_assign, lock_value, skips_local, skips_value, place_all, position_value, assign_from,
  allocator_alloc, slot_positions, total_size,
}
use gmqcc.Vm.Opcodes.{instr_add_f}
use gmqcc.Ir.Propagate.{
  Instr, Liveness, instr, store_local, op_read_write, is_local, is_call, operands, life_propagate,
  propagate_instrs, propagate_instr, add_living, instr_call, instr_reads, instr_writes, extend_if,
  extends_first, extends_second, write_all, write_value, end_vector, end_members, end_life, erase,
  alive_at, read_all, read_value, push_all, push_new, exits_living,
}
use gmqcc.Ir.Propagate.Rounds.{
  Block, Round, liferanges_round, propagate_blocks, propagate_block, set_living, living_at,
  liferanges_round-lives,
}
use gmqcc.Ir.Allocator.Disjoint.{IsDisjoint, placed_values, allocate_locals-IsDisjoint}

program : Unit {0}
unfolding allocate_locals allocate_from assign_all alloc_in assign_in allocator_assign lock_value
    skips_local skips_value place_all position_value assign_from allocator_alloc slot_positions
    total_size lives set_alive merge_life values_overlap
program = tt

abbrev range : ℕ → ℕ → LifeEntry
range s e = record { start = s; end = e }

abbrev two_ranges : List LifeEntry
two_ranges = range 2 4 ∷ range 8 9 ∷ []

abbrev other_ranges : List LifeEntry
other_ranges = range 0 1 ∷ range 5 6 ∷ range 20 22 ∷ []

-- Filling the gap joins the two ranges.
set_alive_runs : (set_alive 6 (range 2 5 ∷ range 7 9 ∷ [])).0 ≡ range 2 9 ∷ []
unfolding program
set_alive_runs = refl

merge_life_runs : merge_life two_ranges other_ranges ≡ range 0 6 ∷ range 8 9 ∷ range 20 22 ∷ []
unfolding program
merge_life_runs = refl

set_alive-lives_example :
    IsLifeFrom 0 (set_alive 6 two_ranges).0
    × ((x : ℕ) → lives (set_alive 6 two_ranges).0 x ≡ (x == 6 || lives two_ranges x))
    × ((set_alive 6 two_ranges).1 ≡ not (lives two_ranges 6))
set_alive-lives_example = set_alive-lives 6 two_ranges (omega arith)

merge_life-lives_example :
    IsLifeFrom 0 (merge_life two_ranges other_ranges)
    × ((x : ℕ)
        → lives (merge_life two_ranges other_ranges) x
          ≡ (lives two_ranges x || lives other_ranges x))
merge_life-lives_example = merge_life-lives two_ranges other_ranges (omega arith) (omega arith)

values_overlap-Meet_example :
    (values_overlap two_ranges (range 3 6 ∷ []) ≡ true) ↔ Meet two_ranges (range 3 6 ∷ [])
values_overlap-Meet_example =
    values_overlap-Meet two_ranges (range 3 6 ∷ []) (omega arith) (omega arith) (omega arith)
      (omega arith)

abbrev config : Config
config = record { share_locals = true; global_temps = true; call_stores = true; params = 1 }

abbrev value : List LifeEntry → ℕ → Bool → LocalValue
value l n k = record {
  life = l;
  size = n;
  unique_life = false;
  locked = k;
  stored_by_call = false;
  local = 0;
}

abbrev some_locals : List LocalValue
some_locals = value (range 0 4 ∷ []) 1 false ∷ value (range 2 6 ∷ []) 3 false ∷ []

abbrev some_values : List LocalValue
some_values = value (range 6 9 ∷ []) 3 false ∷ value (range 3 8 ∷ []) 1 false ∷ []

-- The first value shares the storage of the second local.
allocate_locals_runs :
    (allocate_locals config some_locals some_values).values
    ≡ value (range 6 9 ∷ []) 3 false ∷ record (value (range 3 8 ∷ []) 1 false) { local = 3 } ∷ []
unfolding program
allocate_locals_runs = refl

allocate_locals-IsDisjoint_example :
    let r = allocate_locals config some_locals some_values in
    IsDisjoint config r.pools (placed_values config r.locals r.values)
allocate_locals-IsDisjoint_example =
    allocate_locals-IsDisjoint config some_locals some_values (omega arith) (omega arith)

-- A block with the one instruction `2 = 0 + 1` on locals that live nowhere yet.
abbrev fresh_liveness : Liveness
fresh_liveness = record {
  values =
      λ u. record { store = store_local; life = []; locked = false; members = []; memberof = none };
  living = [];
  changed = false;
}

abbrev addition : Instr
addition = record {
  opcode = instr instr_add_f;
  ops = some 2 ∷ some 0 ∷ some 1 ∷ [];
  phi = [];
  params = [];
  eid = 7;
}

abbrev after_pass : Liveness
after_pass = life_propagate ((2 ∷ []) ∷ []) (addition ∷ []) 5 fresh_liveness

-- A loop: the second block leads to the first and to itself.
abbrev two_blocks : List Block
two_blocks =
    record { instrs = addition ∷ []; exits = 1 ∷ []; entry_id = 5 }
    ∷ record { instrs = []; exits = 0 ∷ 1 ∷ []; entry_id = 9 }
    ∷ []

abbrev fresh_round : Round
fresh_round = record { liveness = fresh_liveness; living_of = λ n. if n == 0 then 2 ∷ [] else [] }

abbrev after_round : Round
after_round = liferanges_round two_blocks fresh_round

liferanges_round-lives_example :
    (lives (after_round.liveness.values 1).life 7 ≡ true)
    × IsLifeFrom 0 (after_round.liveness.values 1).life
    × ((after_round.liveness.changed ≡ true)
        ⊎ ((u : ℕ) → after_round.liveness.values u ≡ fresh_liveness.values u))
unfolding operands op_read_write is_local
liferanges_round-lives_example =
    liferanges_round-lives two_blocks fresh_round 0 0 1
      (record { instrs = addition ∷ []; exits = 1 ∷ []; entry_id = 5 }) addition (λ u. tt) refl refl
      refl

-- The value that lived at the first block's entry lives at the second block's, and at the addition,
-- which writes it.
liferanges_round_run :
    ((after_round.liveness.values 2).life ≡ range 7 7 ∷ range 9 9 ∷ [])
    × (after_round.living_of 1 ≡ 2 ∷ [])
    × (after_round.living_of 0 ≡ 0 ∷ 1 ∷ [])
unfolding liferanges_round propagate_blocks propagate_block set_living living_at life_propagate
    propagate_instrs propagate_instr add_living instr_call instr_reads instr_writes extend_if
    extends_first extends_second write_all write_value end_vector end_members end_life erase
    alive_at set_alive read_all read_value push_all push_new exits_living operands op_read_write
    is_local is_call
liferanges_round_run = (refl, refl, refl)

-- The operands live from the entry on, the result at the instruction only.
life_propagate_run :
    ((after_pass.values 0).life ≡ range 5 5 ∷ range 7 7 ∷ [])
    × ((after_pass.values 2).life ≡ range 7 7 ∷ [])
    × (after_pass.living ≡ 0 ∷ 1 ∷ [])
    × (after_pass.changed ≡ true)
unfolding life_propagate propagate_instrs propagate_instr add_living instr_call instr_reads
    instr_writes extend_if extends_first extends_second write_all write_value end_vector end_members
    end_life erase alive_at set_alive read_all read_value push_all push_new exits_living operands
    op_read_write is_local is_call
life_propagate_run = (refl, refl, refl, refl)
