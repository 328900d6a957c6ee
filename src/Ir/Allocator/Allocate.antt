-- ===== src/Ir/Allocator/Allocate.antt =====
-- The loops of `ir_function_allocate_locals` keep the plan.
use gmqcc.Ir.Allocator.Plan.{All, IsPlan, IsPlan-given, IsPlan-middle, IsPlan-tail, pool_ordered}
use gmqcc.Prelude.{
  ℕ, ◌+◌, ◌≡◌, refl, Bool, not, ◌&&◌, List, [], ◌∷◌, ◌++◌, arith, if◌then◌else◌, length, Bool-cases,
  if-both, inl, inr, ◌∙◌, ap, ltb, append-nil,
}
use gmqcc.Ir.Allocator.{
  LocalValue, Slot, Config, Pools, pool, in_lock, new_slot, allocator_alloc, assign_from,
  allocator_assign, alloc_in, assign_in, assign_all, lock_value, allocate_from, skips_local,
  skips_value, refuses, take_in,
}
use gmqcc.Ir.Allocator.Slots.{
  IsGoodLife, AllOrdered, IsGiven, allocator_alloc-IsGiven, assign_from-IsGiven,
}

-- The result `r` gives the value `v` a slot.
abbrev Gives : List Slot → LocalValue → List Slot × LocalValue → Type 0
Gives ss v r = (j : ℕ) × (r.1 ≡ record v { local = j }) × IsGiven ss v r.0 j

assign_from-Gives :
    (params : ℕ) (ss : List Slot) (v : LocalValue)
    → AllOrdered ss
    → IsGoodLife v.life
    → Gives ss v (assign_from params 0 ss v)
assign_from-Gives params ss v o h =
    let r = assign_from-IsGiven params 0 ss v o h in
    (r.0, r.1 ∙ ap (λ (k : ℕ). record v { local = k }) (omega arith), r.2)

allocator_alloc-Gives :
    (ss : List Slot) (v : LocalValue)
    → AllOrdered ss
    → IsGoodLife v.life
    → Gives ss v (allocator_alloc ss v)
unfolding allocator_alloc
allocator_alloc-Gives ss v o h = (length ss, refl, allocator_alloc-IsGiven ss v o h)

allocator_assign-Gives :
    (params : ℕ) (ss : List Slot) (v : LocalValue)
    → AllOrdered ss
    → IsGoodLife v.life
    → Gives ss v (allocator_assign params ss v)
unfolding allocator_assign
allocator_assign-Gives params ss v o h =
    if-both (Gives ss v) v.unique_life (allocator_alloc ss v) (assign_from params 0 ss v)
      (allocator_alloc-Gives ss v o h) (assign_from-Gives params ss v o h)

assign_in-IsPlan :
    (c : Config) (p : Pools) (v : LocalValue) (placed : List LocalValue)
    → IsGoodLife v.life
    → IsPlan c p placed
    → IsPlan c (assign_in c p v).0 ((assign_in c p v).1 ∷ placed)
unfolding assign_in
assign_in-IsPlan c p v placed h plan =
    let r =
      allocator_assign-Gives c.params (pool p (in_lock c v)) v
        (pool_ordered c p placed (in_lock c v) plan) h in
    rw r.1 (
      IsPlan-given c p v r.0 (allocator_assign c.params (pool p (in_lock c v)) v).0 r.2 placed plan)

alloc_in-IsPlan :
    (c : Config) (p : Pools) (v : LocalValue) (placed : List LocalValue)
    → IsGoodLife v.life
    → IsPlan c p placed
    → IsPlan c (alloc_in c p v).0 ((alloc_in c p v).1 ∷ placed)
unfolding alloc_in allocator_alloc
alloc_in-IsPlan c p v placed h plan =
    IsPlan-given c p v (length (pool p (in_lock c v))) (pool p (in_lock c v) ++ new_slot v ∷ [])
      (allocator_alloc-IsGiven (pool p (in_lock c v)) v (pool_ordered c p placed (in_lock c v) plan)
        h)
      placed plan

-- The values that are not passed over.
abbrev pub kept : (LocalValue → Bool) → List LocalValue → List LocalValue
kept skips [] = []
kept skips (v ∷ vs) = if skips v then kept skips vs else v ∷ kept skips vs

abbrev pub GoodLives : List LocalValue → Type 0
GoodLives = All (λ v. IsGoodLife v.life)

module _ (c : Config) (skips : LocalValue → Bool)
    (stable : (p : Pools) (v : LocalValue) → skips (assign_in c p v).1 ≡ skips v) where
  pub assign_all-IsPlan :
      (p : Pools) (vs placed : List LocalValue)
      → GoodLives vs
      → IsPlan c p placed
      → IsPlan c (assign_all c skips p vs).0 (kept skips (assign_all c skips p vs).1 ++ placed)
  unfolding assign_all
  assign_all-IsPlan p [] placed h plan = plan
  assign_all-IsPlan p (v ∷ vs) placed h plan = elim (Bool-cases (skips v)) [
    | inl over ↦ rw (over, over) (assign_all-IsPlan p vs placed h.1 plan)
    | inr use' ↦
        let v' = (assign_in c p v).1 in
        let r =
          assign_all-IsPlan (assign_in c p v).0 vs (v' ∷ placed) h.1
            (assign_in-IsPlan c p v placed h.0 plan) in
        rw (use', stable p v, use')
          (IsPlan-middle c (assign_all c skips (assign_in c p v).0 vs).0
            (kept skips (assign_all c skips (assign_in c p v).0 vs).1) v' placed r)
  ]

-- Giving a value a slot writes its `local` only.
abbrev OnlyLocal : LocalValue → LocalValue → Type 0
OnlyLocal v w = (j : ℕ) × (w ≡ record v { local = j })

assign_from-OnlyLocal :
    (params a : ℕ) (ss : List Slot) (v : LocalValue) → OnlyLocal v (assign_from params a ss v).1
unfolding assign_from
assign_from-OnlyLocal params a [] v = (a, refl)
assign_from-OnlyLocal params a (s ∷ ss) v =
    if-both (λ (r : List Slot × LocalValue). OnlyLocal v r.1) (refuses params a s v)
      (s ∷ (assign_from params (a + 1) ss v).0, (assign_from params (a + 1) ss v).1)
      (take_in s v ∷ ss, record v { local = a }) (assign_from-OnlyLocal params (a + 1) ss v)
      (a, refl)

assign_in-OnlyLocal : (c : Config) (p : Pools) (v : LocalValue) → OnlyLocal v (assign_in c p v).1
unfolding assign_in allocator_assign allocator_alloc
assign_in-OnlyLocal c p v =
    let ss = pool p (in_lock c v) in
    if-both (λ (r : List Slot × LocalValue). OnlyLocal v r.1) v.unique_life (allocator_alloc ss v)
      (assign_from c.params 0 ss v) (length ss, refl) (assign_from-OnlyLocal c.params 0 ss v)

skips_local-assign_in :
    (c : Config) (p : Pools) (v : LocalValue) → skips_local (assign_in c p v).1 ≡ skips_local v
unfolding skips_local
skips_local-assign_in c p v = rw (assign_in-OnlyLocal c p v).1

skips_value-assign_in :
    (c : Config) (p : Pools) (v : LocalValue) → skips_value c (assign_in c p v).1 ≡ skips_value c v
unfolding skips_value
skips_value-assign_in c p v = rw (assign_in-OnlyLocal c p v).1

IsPlan-kept_cons :
    (c : Config) (p : Pools) (v : LocalValue) (vs placed : List LocalValue)
    → IsPlan c p (v ∷ kept skips_local vs ++ placed)
    → IsPlan c p (kept skips_local (v ∷ vs) ++ placed)
IsPlan-kept_cons c p v vs placed h =
    if-both (λ l. IsPlan c p (l ++ placed)) (skips_local v) (kept skips_local vs)
      (v ∷ kept skips_local vs) (IsPlan-tail c p v (kept skips_local vs ++ placed) h) h

lock_value-life : (c : Config) (v : LocalValue) → (lock_value c v).life ≡ v.life
unfolding lock_value
lock_value-life c v = ground arith

-- The first loop; a local without a range has a slot there too, which is left out of the plan.
allocate_from-IsPlan :
    (c : Config) (i : ℕ) (p : Pools) (vs placed : List LocalValue)
    → GoodLives vs
    → IsPlan c p placed
    → IsPlan c (allocate_from c i p vs).0 (kept skips_local (allocate_from c i p vs).1 ++ placed)
unfolding allocate_from
allocate_from-IsPlan c i p [] placed h plan = plan
allocate_from-IsPlan c i p (v ∷ vs) placed h plan =
    let own = alloc_in c p (lock_value c v) in
    let rest = allocate_from c (i + 1) own.0 vs in
    let first = alloc_in-IsPlan c p (lock_value c v) placed (rw (lock_value-life c v) h.0) plan in
    let later = allocate_from-IsPlan c (i + 1) own.0 vs (own.1 ∷ placed) h.1 first in
    if-both (λ (r : Pools × List LocalValue). IsPlan c r.0 (kept skips_local r.1 ++ placed))
      (c.share_locals && not (ltb i c.params)) (assign_all c skips_local p (v ∷ vs))
      (rest.0, own.1 ∷ rest.1)
      (assign_all-IsPlan c skips_local (skips_local-assign_in c) p (v ∷ vs) placed h plan)
      (IsPlan-kept_cons c rest.0 own.1 rest.1 placed
        (IsPlan-middle c rest.0 (kept skips_local rest.1) own.1 placed later))

abbrev pub no_pools : Pools
no_pools = record { lock = []; glob = [] }

-- The plan of the whole function, before the positions are given out.
pub IsPlan-allocated :
    (c : Config) (locals values : List LocalValue)
    → GoodLives locals
    → GoodLives values
    → let first = allocate_from c 0 no_pools locals in
      let second = assign_all c (skips_value c) first.0 values in
      IsPlan c second.0 (kept (skips_value c) second.1 ++ kept skips_local first.1)
IsPlan-allocated c locals values h k =
    let none_yet : IsPlan c no_pools [] = record {
      lock_ordered = tt;
      glob_ordered = tt;
      held = tt;
      clear = tt;
    } in
    let first = allocate_from c 0 no_pools locals in
    let plan = allocate_from-IsPlan c 0 no_pools locals [] h none_yet in
    assign_all-IsPlan c (skips_value c) (skips_value-assign_in c) first.0 values
      (kept skips_local first.1) k (rw append-nil at plan)
