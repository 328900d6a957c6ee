-- ===== src/Ir/Allocator.antt =====
-- The allocator of local values in ir.cpp: `function_allocator_alloc`,
-- `ir_function_allocator_assign` and `ir_function_allocate_locals`. A `function_allocator` is the
-- list of its slots; the parallel vectors `locals`, `sizes` and `unique` are the fields of a slot.
-- Values are changed in place there, and returned here.
pub mod Slots
pub mod Plan
pub mod Allocate
pub mod Disjoint
pub mod Positions
use gmqcc.Prelude.{
  ℕ, zero, suc, ◌+◌, Bool, true, false, not, ◌&&◌, ◌||◌, List, [], ◌∷◌, ◌++◌, map, ltb,
  if◌then◌else◌, length, get_or,
}
use gmqcc.Ir.Life.{LifeEntry, merge_life, values_overlap}

-- The fields of an `ir_value` that the allocator reads and writes. `size` is what `size()` gives
-- for its type, and `local` is `m_code.local`. `stored_by_call` says that the only read is as a
-- parameter of a call or that the only write is a CALL0.
pub record LocalValue : Type 0 where
  pub life : List LifeEntry
  pub size : ℕ
  pub unique_life : Bool
  pub locked : Bool
  pub stored_by_call : Bool
  pub local : ℕ

pub record Slot : Type 0 where
  pub life : List LifeEntry
  pub size : ℕ
  pub unique : Bool

-- `share_locals` is the option LOCAL_TEMPS without a flag of the function against it,
-- `global_temps` and `call_stores` are the options of those names, and `params` is the number of
-- parameters of the function.
pub record Config : Type 0 where
  pub share_locals : Bool
  pub global_temps : Bool
  pub call_stores : Bool
  pub params : ℕ

-- A fresh slot has no range before it takes the value's.
unfoldable pub new_slot : LocalValue → Slot
new_slot v = record { life = merge_life [] v.life; size = v.size; unique = v.unique_life }

unfoldable pub allocator_alloc : List Slot → LocalValue → List Slot × LocalValue
allocator_alloc slots v = (slots ++ new_slot v ∷ [], record v { local = length slots })

-- The `continue`s of the loop of `ir_function_allocator_assign` at the slot of index `a`.
unfoldable pub refuses : ℕ → ℕ → Slot → LocalValue → Bool
refuses params a s v =
    s.unique || (ltb a params && ltb s.size v.size) || values_overlap v.life s.life

-- The slot that takes the value.
unfoldable pub take_in : Slot → LocalValue → Slot
take_in s v = record s {
  life = merge_life s.life v.life;
  size = if ltb s.size v.size then v.size else s.size;
}

-- The loop from the index `a`; at the end a slot is added.
unfoldable pub assign_from : ℕ → ℕ → List Slot → LocalValue → List Slot × LocalValue
unfolding new_slot refuses take_in
assign_from params a [] v = (new_slot v ∷ [], record v { local = a })
assign_from params a (s ∷ ss) v =
    let later = assign_from params (a + 1) ss v in
    if refuses params a s v
    then (s ∷ later.0, later.1)
    else (take_in s v ∷ ss, record v { local = a })

unfoldable pub allocator_assign : ℕ → List Slot → LocalValue → List Slot × LocalValue
allocator_assign params slots v =
    if v.unique_life then allocator_alloc slots v else assign_from params 0 slots v

-- `lockalloc` and `globalloc`.
pub record Pools : Type 0 where
  pub lock : List Slot
  pub glob : List Slot

-- Whether a value goes to `lockalloc`.
abbrev pub in_lock : Config → LocalValue → Bool
in_lock c v = v.locked || not c.global_temps

abbrev pub pool : Pools → Bool → List Slot
pool p true = p.lock
pool p false = p.glob

abbrev pub set_pool : Pools → Bool → List Slot → Pools
set_pool p true s = record p { lock = s }
set_pool p false s = record p { glob = s }

unfoldable pub alloc_in : Config → Pools → LocalValue → Pools × LocalValue
alloc_in c p v =
    let r = allocator_alloc (pool p (in_lock c v)) v in (set_pool p (in_lock c v) r.0, r.1)

unfoldable pub assign_in : Config → Pools → LocalValue → Pools × LocalValue
assign_in c p v =
    let r = allocator_assign c.params (pool p (in_lock c v)) v in
    (set_pool p (in_lock c v) r.0, r.1)

abbrev is_empty : List LifeEntry → Bool
is_empty [] = true
is_empty (e ∷ es) = false

-- A value that the second and the third loop pass over.
unfoldable pub skips_local : LocalValue → Bool
skips_local v = is_empty v.life

unfoldable pub skips_value : Config → LocalValue → Bool
skips_value c v =
    is_empty v.life || (c.call_stores && not v.locked && not v.unique_life && v.stored_by_call)

-- The second and the third loop, over the values that `skips` lets through.
unfoldable pub assign_all :
    Config → (LocalValue → Bool) → Pools → List LocalValue → Pools × List LocalValue
assign_all c skips p [] = (p, [])
assign_all c skips p (v ∷ vs) =
    let r = if skips v then (p, v) else assign_in c p v in
    let rest = assign_all c skips r.0 vs in (rest.0, r.1 ∷ rest.1)

-- What the first loop writes to a value before it gives it a slot of its own.
unfoldable pub lock_value : Config → LocalValue → LocalValue
lock_value c v =
    if c.share_locals
    then record v { locked = true }
    else record v { locked = true; unique_life = true }

-- The first loop, from the index `i`, and at its `break` the second one.
unfoldable pub allocate_from : Config → ℕ → Pools → List LocalValue → Pools × List LocalValue
allocate_from c i p [] = (p, [])
allocate_from c i p (v ∷ vs) =
    let r = alloc_in c p (lock_value c v) in
    let rest = allocate_from c (i + 1) r.0 vs in
    if c.share_locals && not (ltb i c.params)
    then assign_all c skips_local p (v ∷ vs)
    else (rest.0, r.1 ∷ rest.1)

-- The positions of slots of these sizes, the first of which is at `pos`.
unfoldable pub positions_from : ℕ → List Slot → List ℕ
positions_from pos [] = []
positions_from pos (s ∷ ss) = pos ∷ positions_from (pos + s.size) ss

-- `positions`, which holds a 0 where there is no slot.
unfoldable pub slot_positions : List Slot → List ℕ
unfolding positions_from
slot_positions [] = 0 ∷ []
slot_positions (s ∷ ss) = positions_from 0 (s ∷ ss)

-- `m_allocated_locals` and `m_globaltemps`, where there are slots.
unfoldable pub total_size : List Slot → ℕ
total_size [] = 0
total_size (s ∷ ss) = s.size + total_size ss

unfoldable pub position_value : Config → Pools → LocalValue → LocalValue
unfolding slot_positions
position_value c p v = record v { local = get_or (slot_positions (pool p (in_lock c v))) v.local 0 }

-- The function's locals and values with their new positions, and the slots.
pub record Allocation : Type 0 where
  pub pools : Pools
  pub locals : List LocalValue
  pub values : List LocalValue

-- With no slot at all the function returns early, where the positions would all be 0.
unfoldable pub place_all : Config → Pools → List LocalValue → List LocalValue
place_all c (p) vs = elim p.lock [
  | s ∷ ss ↦ map (position_value c p) vs
  | [] ↦ elim p.glob [ [] ↦ vs | s ∷ ss ↦ map (position_value c p) vs ]
]

unfoldable pub allocate_locals : Config → List LocalValue → List LocalValue → Allocation
allocate_locals c locals values =
    let first = allocate_from c 0 (record { lock = []; glob = [] }) locals in
    let second = assign_all c (skips_value c) first.0 values in
    record {
      pools = second.0;
      locals = place_all c second.0 first.1;
      values = place_all c second.0 second.1;
    }
