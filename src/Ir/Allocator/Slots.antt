-- ===== src/Ir/Allocator/Slots.antt =====
-- One value and the slot that it is given.
use mathlib.Core.Option.{some-injective}
use gmqcc.Prelude.{
  ◌∙◌, ap, subst, ℕ, zero, suc, ◌+◌, ◌≤◌, ◌≡◌, refl, true, false, List, [], ◌∷◌, ◌++◌, arith,
  length, get_elem?, some, Bool-cases, inl, inr,
}
use gmqcc.Ir.Allocator.{LocalValue, Slot, new_slot, refuses, take_in, assign_from}
use gmqcc.Ir.Life.{LifeEntry, merge_life, values_overlap}
use gmqcc.Ir.Life.Ranges.{IsLifeFrom}
use gmqcc.Ir.Life.Merge.{merge_life-IsUnion}
use gmqcc.Ir.Life.Overlap.{AreSpans, busy, busy-merge_life, values_overlap-apart}

-- Ordered ranges, none of which is a single place.
abbrev pub IsGoodLife : List LifeEntry → Type 0
IsGoodLife l = IsLifeFrom 0 l × AreSpans l

abbrev pub AllOrdered : List Slot → Type 0
AllOrdered [] = Unit
AllOrdered (s ∷ ss) = IsLifeFrom 0 s.life × AllOrdered ss

-- `b` is in use wherever `a` is.
abbrev pub Within : List LifeEntry → List LifeEntry → Type 0
Within a b = (x : ℕ) → busy a x ≡ true → busy b x ≡ true

-- `a` and `b` are in use nowhere together.
abbrev pub Apart : List LifeEntry → List LifeEntry → Type 0
Apart a b = (x : ℕ) → busy a x ≡ true → busy b x ≡ false

-- The slot of index `i` has room for `size` and is in use wherever `life` is.
pub record Holds (slots : List Slot) (i : ℕ) (size : ℕ) (life : List LifeEntry) : Type 0 where
  pub slot : Slot
  pub found : get_elem? slots i ≡ some slot
  pub room : size ≤ slot.size
  pub used : Within life slot.life

-- No slot shrinks or is in use less.
abbrev pub Grows : List Slot → List Slot → Type 0
Grows ss ts = (i : ℕ) (s : Slot) → get_elem? ss i ≡ some s → Holds ts i s.size s.life

-- The value `v` gets the slot of index `j` among `ss`, which become `ts`.
pub record IsGiven (ss : List Slot) (v : LocalValue) (ts : List Slot) (j : ℕ) : Type 0 where
  pub holds : Holds ts j v.size v.life
  pub grows : Grows ss ts
  pub apart : (s : Slot) → get_elem? ss j ≡ some s → Apart v.life s.life
  pub ordered : AllOrdered ts

new_slot-life : (v : LocalValue) → (new_slot v).life ≡ v.life
unfolding new_slot merge_life
new_slot-life v = elim v.life as (λ l. merge_life [] l ≡ l) [ [] ↦ refl | e ∷ es ↦ refl ]

Holds-self : (s : Slot) (ss : List Slot) → Holds (s ∷ ss) 0 s.size s.life
Holds-self s ss = record { slot = s; found = refl; room = omega arith; used = λ x u. u }

Holds-cons :
    (s : Slot) (ss : List Slot) (i n : ℕ) (l : List LifeEntry)
    → Holds ss i n l
    → Holds (s ∷ ss) (suc i) n l
Holds-cons s ss i n l h = record { slot = h.slot; found = h.found; room = h.room; used = h.used }

pub Grows-refl : (ss : List Slot) → Grows ss ss
Grows-refl ss i s e = record { slot = s; found = e; room = omega arith; used = λ x u. u }

Grows-cons : (s : Slot) (ss ts : List Slot) → Grows ss ts → Grows (s ∷ ss) (s ∷ ts)
Grows-cons s ss ts g zero t e = record {
  slot = s;
  found = refl;
  room = ground arith;
  used = λ x u. ground arith;
}
Grows-cons s ss ts g (suc i) t e = Holds-cons s ts i t.size t.life (g i t e)

Holds-new_slot : (v : LocalValue) (ss : List Slot) → Holds (new_slot v ∷ ss) 0 v.size v.life
Holds-new_slot v ss = record {
  slot = new_slot v;
  found = refl;
  room = unfold new_slot in omega arith;
  used = λ x u. rw (new_slot-life v) u;
}

IsGiven-cons :
    (s : Slot) (ss ts : List Slot) (v : LocalValue) (j : ℕ)
    → IsLifeFrom 0 s.life
    → IsGiven ss v ts j
    → IsGiven (s ∷ ss) v (s ∷ ts) (suc j)
IsGiven-cons s ss ts v j o g = record {
  holds = Holds-cons s ts j v.size v.life g.holds;
  grows = Grows-cons s ss ts g.grows;
  apart = g.apart;
  ordered = (o, g.ordered);
}

IsGiven-new_slot : (v : LocalValue) → IsGoodLife v.life → IsGiven [] v (new_slot v ∷ []) 0
IsGiven-new_slot v h = record {
  holds = Holds-new_slot v [];
  grows = λ i s e. cc;
  apart = λ s e. cc;
  ordered = (rw (new_slot-life v) h.0, tt);
}

IsGiven-take_in :
    (s : Slot) (ss : List Slot) (v : LocalValue)
    → IsLifeFrom 0 s.life
    → AllOrdered ss
    → IsGoodLife v.life
    → values_overlap v.life s.life ≡ false
    → IsGiven (s ∷ ss) v (take_in s v ∷ ss) 0
unfolding take_in
IsGiven-take_in s ss v o os h e = record {
  holds = record {
    slot = take_in s v;
    found = refl;
    room = ground arith;
    used = λ x u. busy-merge_life s.life v.life x o h.0 (ground arith);
  };
  grows = elim [
    | zero ↦ λ t same. record {
      slot = take_in s v;
      found = refl;
      room = ground arith;
      used = λ x u. busy-merge_life s.life v.life x o h.0 (ground arith);
    }
    | suc i ↦ λ t same. record { slot = t; found = same; room = omega arith; used = λ x u. u }
  ];
  apart = λ t same x u.
      subst (λ r. busy r.life x ≡ false) (some-injective s t same)
        (values_overlap-apart v.life s.life h.0 o h.1 e x u);
  ordered = ((merge_life-IsUnion s.life v.life o h.0).0, os);
}

pub assign_from-IsGiven :
    (params a : ℕ) (ss : List Slot) (v : LocalValue)
    → AllOrdered ss
    → IsGoodLife v.life
    → (j : ℕ) × ((assign_from params a ss v).1 ≡ record v { local = a + j })
      × IsGiven ss v (assign_from params a ss v).0 j
unfolding assign_from
assign_from-IsGiven params a [] v os h = (0, ground arith, IsGiven-new_slot v h)
assign_from-IsGiven params a (s ∷ ss) v os h = elim (Bool-cases (refuses params a s v)) [
  | inl no_way ↦
      let later = assign_from-IsGiven params (a + 1) ss v os.1 h in
      (
        suc later.0,
        rw no_way (later.1 ∙ ap (λ (k : ℕ). record v { local = k }) (omega arith)),
        rw no_way (IsGiven-cons s ss (assign_from params (a + 1) ss v).0 v later.0 os.0 later.2),
      )
  | inr free ↦ (
    0,
    rw free (ground arith),
    rw free (IsGiven-take_in s ss v os.0 os.1 h (unfold refuses in ground arith)),
  )
]

pub allocator_alloc-IsGiven :
    (ss : List Slot) (v : LocalValue)
    → AllOrdered ss
    → IsGoodLife v.life
    → IsGiven ss v (ss ++ new_slot v ∷ []) (length ss)
allocator_alloc-IsGiven [] v os h = IsGiven-new_slot v h
allocator_alloc-IsGiven (s ∷ ss) v os h =
    IsGiven-cons s ss (ss ++ new_slot v ∷ []) v (length ss) os.0
      (allocator_alloc-IsGiven ss v os.1 h)
