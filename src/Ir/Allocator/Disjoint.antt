-- ===== src/Ir/Allocator/Disjoint.antt =====
-- The storage of two values of one allocator.
use mathlib.Core.List.{map-append}
use gmqcc.Prelude.{
  ◌+◌, ◌≤◌, ◌≡◌, refl, Bool, List, [], ◌∷◌, ◌++◌, map, arith, get_or, ◌⊎◌, inl, inr, subst, sym,
  ℕ_discrete, Bool-cases, ap,
}
use gmqcc.Ir.Allocator.{
  LocalValue, Slot, Config, Pools, pool, in_lock, allocate_from, assign_all, skips_local,
  skips_value, slot_positions, total_size, position_value, place_all, allocate_locals,
}
use gmqcc.Ir.Allocator.Slots.{Apart, Holds}
use gmqcc.Ir.Allocator.Positions.{slot_position-le, slot_positions_apart}
use gmqcc.Ir.Allocator.Plan.{All, Pairwise, Clear, Held, IsPlan}
use gmqcc.Ir.Allocator.Allocate.{kept, GoodLives, IsPlan-allocated}

-- The storage of one value ends before the other's starts.
abbrev pub Separate : LocalValue → LocalValue → Type 0
Separate u w = (u.local + u.size ≤ w.local) ⊎ (w.local + w.size ≤ u.local)

module _ (c : Config) where
  -- Values of one pool are in use nowhere together, or their storage is disjoint.
  abbrev pub NoClash : LocalValue → LocalValue → Type 0
  NoClash u w = in_lock c u ≡ in_lock c w → Apart u.life w.life ⊎ Separate u w

  -- A value's storage lies in its pool.
  abbrev pub Fits : Pools → LocalValue → Type 0
  Fits p v = v.local + v.size ≤ total_size (pool p (in_lock c v))

  NoClash-position :
      (p : Pools) (u w : LocalValue)
      → Held c p u
      → Held c p w
      → Clear c u w
      → NoClash (position_value c p u) (position_value c p w)
  unfolding position_value
  NoClash-position p u w hu hw clear same = elim (ℕ_discrete u.local w.local) [
    | yes e ↦ inl (clear same e)
    | no n ↦
        let hu' : Holds (pool p (in_lock c w)) u.local u.size u.life =
          subst (λ b. Holds (pool p b) u.local u.size u.life) same hu in
        let r =
          slot_positions_apart (pool p (in_lock c w)) u.local w.local hu'.slot hw.slot hu'.found
            hw.found n in
        let e : get_or (slot_positions (pool p (in_lock c u))) u.local 0
            ≡ get_or (slot_positions (pool p (in_lock c w))) u.local 0 =
          ap (λ b. get_or (slot_positions (pool p b)) u.local 0) same in
        inr (omega (arith, r, e, hu'.room, hw.room))
  ]

  Fits-position : (p : Pools) (v : LocalValue) → Held c p v → Fits p (position_value c p v)
  unfolding position_value
  Fits-position p v h =
      omega (arith, slot_position-le (pool p (in_lock c v)) v.local h.slot h.found, h.room)

  NoClash-positions :
      (p : Pools) (u : LocalValue) (vs : List LocalValue)
      → Held c p u
      → All (Held c p) vs
      → All (Clear c u) vs
      → All (NoClash (position_value c p u)) (map (position_value c p) vs)
  NoClash-positions p u [] hu h clear = tt
  NoClash-positions p u (v ∷ vs) hu h clear =
      (NoClash-position p u v hu h.0 clear.0, NoClash-positions p u vs hu h.1 clear.1)

  Pairwise-positions :
      (p : Pools) (vs : List LocalValue)
      → All (Held c p) vs
      → Pairwise (Clear c) vs
      → Pairwise NoClash (map (position_value c p) vs) × All (Fits p) (map (position_value c p) vs)
  Pairwise-positions p [] h clear = (tt, tt)
  Pairwise-positions p (v ∷ vs) h clear =
      let r = Pairwise-positions p vs h.1 clear.1 in
      ((NoClash-positions p v vs h.0 h.1 clear.0, r.0), (Fits-position p v h.0, r.1))

kept-map_position :
    (c : Config) (p : Pools) (skips : LocalValue → Bool)
    → ((v : LocalValue) → skips (position_value c p v) ≡ skips v)
    → (vs : List LocalValue)
    → kept skips (map (position_value c p) vs) ≡ map (position_value c p) (kept skips vs)
kept-map_position c p skips stable [] = refl
kept-map_position c p skips stable (v ∷ vs) =
    rw (stable v, kept-map_position c p skips stable vs)
      (elim (Bool-cases (skips v)) [ inl e ↦ rw e | inr e ↦ rw e ])

-- The values of a function that have a slot: those with a range, less those of a call.
abbrev pub placed_values : Config → List LocalValue → List LocalValue → List LocalValue
placed_values c locals values = kept (skips_value c) values ++ kept skips_local locals

-- What the positions promise of the placed values.
abbrev pub IsDisjoint : Config → Pools → List LocalValue → Type 0
IsDisjoint c p vs = Pairwise (NoClash c) vs × All (Fits c p) vs

placed_values-map_position :
    (c : Config) (p : Pools) (locals values : List LocalValue)
    → placed_values c (map (position_value c p) locals) (map (position_value c p) values)
      ≡ map (position_value c p) (placed_values c locals values)
placed_values-map_position c p locals values = rw (
  kept-map_position c p (skips_value c) (λ v. unfold skips_value position_value in refl) values,
  kept-map_position c p skips_local (λ v. unfold skips_local position_value in refl) locals,
  map-append,
)

none-Held :
    (c : Config) (vs : List LocalValue)
    → All (Held c (record { lock = []; glob = [] })) vs
    → IsDisjoint c (record { lock = []; glob = [] }) vs
none-Held c [] h = (tt, tt)
none-Held c (v ∷ vs) h = elim (Bool-cases (in_lock c v)) [
  | inl e ↦ absurd (nothing (subst (λ b. Holds (pool empty_pools b) v.local v.size v.life) e h.0))
  | inr e ↦ absurd (nothing (subst (λ b. Holds (pool empty_pools b) v.local v.size v.life) e h.0))
]
  where
    empty_pools : Pools
    empty_pools = record { lock = []; glob = [] }

    nothing : Holds [] v.local v.size v.life → ⊥
    nothing k = cc k.found

place_all-IsDisjoint :
    (c : Config) (lock glob : List Slot) (locals values : List LocalValue)
    → let p : Pools = record { lock = lock; glob = glob } in
      IsPlan c p (placed_values c locals values)
      → IsDisjoint c p (placed_values c (place_all c p locals) (place_all c p values))
unfolding place_all
place_all-IsDisjoint c [] [] locals values plan =
    none-Held c (placed_values c locals values) plan.held
place_all-IsDisjoint c [] (s ∷ ss) locals values plan =
    let p : Pools = record { lock = []; glob = s ∷ ss } in
    let r = Pairwise-positions c p (placed_values c locals values) plan.held plan.clear in
    subst (IsDisjoint c p) (sym (placed_values-map_position c p locals values)) r
place_all-IsDisjoint c (s ∷ ss) glob locals values plan =
    let p : Pools = record { lock = s ∷ ss; glob = glob } in
    let r = Pairwise-positions c p (placed_values c locals values) plan.held plan.clear in
    subst (IsDisjoint c p) (sym (placed_values-map_position c p locals values)) r

-- After `ir_function_allocate_locals`, if every range of the locals and values is longer than one
-- place and the ranges of each are ordered: two different values with a slot in the same allocator
-- are in use nowhere together, or their storage is disjoint; and the storage of each lies within
-- the allocator's total size.
pub allocate_locals-IsDisjoint :
    (c : Config) (locals values : List LocalValue)
    → GoodLives locals
    → GoodLives values
    → let r = allocate_locals c locals values in
      IsDisjoint c r.pools (placed_values c r.locals r.values)
unfolding allocate_locals
allocate_locals-IsDisjoint c locals values h k =
    let first = allocate_from c 0 (record { lock = []; glob = [] }) locals in
    let second = assign_all c (skips_value c) first.0 values in
    place_all-IsDisjoint c second.0.lock second.0.glob first.1 second.1
      (IsPlan-allocated c locals values h k)
