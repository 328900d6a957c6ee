-- ===== src/Ir/Allocator/Plan.antt =====
-- The plan that the loops of `ir_function_allocate_locals` keep for the values that have a slot.
use gmqcc.Prelude.{ℕ, ◌≡◌, refl, Bool, true, false, List, [], ◌∷◌, ◌++◌, arith, sym, subst}
use gmqcc.Ir.Allocator.{LocalValue, Slot, Config, Pools, pool, set_pool, in_lock}
use gmqcc.Ir.Allocator.Slots.{AllOrdered, Apart, Holds, Grows, Grows-refl, IsGiven}
use gmqcc.Ir.Life.{LifeEntry}

abbrev pub All {ℓ κ} : {A : Type ℓ} → (A → Type κ) → List A → Type κ
All P [] = Unit
All P (x ∷ xs) = P x × All P xs

abbrev pub Pairwise {ℓ κ} : {A : Type ℓ} → (A → A → Type κ) → List A → Type κ
Pairwise R [] = Unit
Pairwise R (x ∷ xs) = All (R x) xs × Pairwise R xs

module _ {ℓ κ} {A : Type ℓ} where
  pub All-mono : (P Q : A → Type κ) (xs : List A) → ((x : A) → P x → Q x) → All P xs → All Q xs
  All-mono P Q [] f h = tt
  All-mono P Q (x ∷ xs) f h = (f x h.0, All-mono P Q xs f h.1)

  All-middle :
      (P : A → Type κ) (xs : List A) (v : A) (ys : List A)
      → All P (xs ++ v ∷ ys)
      → All P (v ∷ xs ++ ys)
  All-middle P [] v ys h = h
  All-middle P (x ∷ xs) v ys h = let r = All-middle P xs v ys h.1 in (r.0, (h.0, r.1))

  Pairwise-middle :
      (R : A → A → Type κ)
      → ((x y : A) → R x y → R y x)
      → (xs : List A) (v : A) (ys : List A) → Pairwise R (xs ++ v ∷ ys)
      → Pairwise R (v ∷ xs ++ ys)
  Pairwise-middle R symm [] v ys h = h
  Pairwise-middle R symm (x ∷ xs) v ys h =
      let r = Pairwise-middle R symm xs v ys h.1 in
      let t = All-middle (R x) xs v ys h.0 in ((symm x v t.0, r.0), (t.1, r.1))

module _ (c : Config) where
  -- Two values of one allocator and one slot are apart.
  abbrev pub Clear : LocalValue → LocalValue → Type 0
  Clear u w = in_lock c u ≡ in_lock c w → u.local ≡ w.local → Apart u.life w.life

  abbrev pub Held : Pools → LocalValue → Type 0
  Held p v = Holds (pool p (in_lock c v)) v.local v.size v.life

  pub record IsPlan (p : Pools) (placed : List LocalValue) : Type 0 where
    pub lock_ordered : AllOrdered p.lock
    pub glob_ordered : AllOrdered p.glob
    pub held : All (Held p) placed
    pub clear : Pairwise Clear placed

Apart-sym : (a b : List LifeEntry) → Apart a b → Apart b a
Apart-sym a b h x u = ground (arith, h x)

Holds-Grows :
    (ss ts : List Slot) (i n : ℕ) (l : List LifeEntry)
    → Grows ss ts
    → Holds ss i n l
    → Holds ts i n l
Holds-Grows ss ts i n l g h =
    let r = g i h.slot h.found in
    record {
      slot = r.slot;
      found = r.found;
      room = omega (arith, h.room, r.room);
      used = λ x u. r.used x (h.used x u);
    }

pub pool_ordered :
    (c : Config) (p : Pools) (placed : List LocalValue) (b : Bool)
    → IsPlan c p placed
    → AllOrdered (pool p b)
pool_ordered c p placed true h = h.lock_ordered
pool_ordered c p placed false h = h.glob_ordered

pool-set_pool : (p : Pools) (b : Bool) (ts : List Slot) → pool (set_pool p b ts) b ≡ ts
pool-set_pool p true ts = refl
pool-set_pool p false ts = refl

set_pool-Grows :
    (p : Pools) (b b' : Bool) (ts : List Slot)
    → Grows (pool p b) ts
    → Grows (pool p b') (pool (set_pool p b ts) b')
set_pool-Grows p true true ts g = g
set_pool-Grows p true false ts g = Grows-refl p.glob
set_pool-Grows p false true ts g = Grows-refl p.lock
set_pool-Grows p false false ts g = g

set_pool_ordered :
    (c : Config) (p : Pools) (placed : List LocalValue) (b : Bool) (ts : List Slot)
    → IsPlan c p placed
    → AllOrdered ts
    → AllOrdered (set_pool p b ts).lock × AllOrdered (set_pool p b ts).glob
set_pool_ordered c p placed true ts h o = (o, h.glob_ordered)
set_pool_ordered c p placed false ts h o = (h.lock_ordered, o)

module _ (c : Config) (p : Pools) (v : LocalValue) (j : ℕ) (ts : List Slot)
    (given : IsGiven (pool p (in_lock c v)) v ts j) where
  abbrev placed_value : LocalValue
  placed_value = record v { local = j }

  Clear-given : (u : LocalValue) → Held c p u → Clear c placed_value u
  Clear-given u h same at x used =
      let held : Holds (pool p (in_lock c v)) j u.size u.life =
        subst (λ i. Holds (pool p (in_lock c v)) i u.size u.life) (sym at)
          (subst (λ b. Holds (pool p b) u.local u.size u.life) (sym same) h) in
      ground (arith, given.apart held.slot held.found x used, held.used x)

  -- A plan with one value more.
  pub IsPlan-given :
      (placed : List LocalValue)
      → IsPlan c p placed
      → IsPlan c (set_pool p (in_lock c v) ts) (placed_value ∷ placed)
  IsPlan-given placed h =
      let o = set_pool_ordered c p placed (in_lock c v) ts h given.ordered in
      record {
        lock_ordered = o.0;
        glob_ordered = o.1;
        held = (
          rw (pool-set_pool p (in_lock c v) ts) given.holds,
          All-mono (Held c p) (Held c (set_pool p (in_lock c v) ts)) placed
              (λ u held.
                Holds-Grows (pool p (in_lock c u))
                  (pool (set_pool p (in_lock c v) ts) (in_lock c u)) u.local u.size u.life
                  (set_pool-Grows p (in_lock c v) (in_lock c u) ts given.grows) held)
              h.held,
        );
        clear = (All-mono (Held c p) (Clear c placed_value) placed Clear-given h.held, h.clear);
      }

pub IsPlan-middle :
    (c : Config) (p : Pools) (xs : List LocalValue) (v : LocalValue) (ys : List LocalValue)
    → IsPlan c p (xs ++ v ∷ ys)
    → IsPlan c p (v ∷ xs ++ ys)
IsPlan-middle c p xs v ys h = record {
  lock_ordered = h.lock_ordered;
  glob_ordered = h.glob_ordered;
  held = All-middle (Held c p) xs v ys h.held;
  clear =
      Pairwise-middle (Clear c) (λ u w r same at. Apart-sym u.life w.life (r (sym same) (sym at)))
        xs v ys h.clear;
}

pub IsPlan-tail :
    (c : Config) (p : Pools) (v : LocalValue) (placed : List LocalValue)
    → IsPlan c p (v ∷ placed)
    → IsPlan c p placed
IsPlan-tail c p v placed h = record {
  lock_ordered = h.lock_ordered;
  glob_ordered = h.glob_ordered;
  held = h.held.1;
  clear = h.clear.1;
}
