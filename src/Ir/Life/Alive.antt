-- ===== src/Ir/Life/Alive.antt =====
-- `setAlive` as an operation on the set of places.
use gmqcc.Prelude.{
  ℕ, ◌+◌, ◌≤◌, ◌<◌, ◌≡◌, refl, Bool, not, ◌||◌, List, [], ◌∷◌, arith, ltb, ltb→lt, ◌==◌, Bool-cases,
  inl, inr,
}
use gmqcc.Ir.Life.{LifeEntry, lives, extend_or_insert, set_between, set_after, set_past, set_alive}
use gmqcc.Ir.Life.Ranges.{IsLifeFrom, covers, covers-below, lives-eq-covers}

-- What `setAlive` promises for the ranges `l` from `lo` on.
abbrev pub IsSetAt : ℕ → ℕ → List LifeEntry → List LifeEntry × Bool → Type 0
IsSetAt lo s l r =
    IsLifeFrom lo r.0 × ((x : ℕ) → covers r.0 x ≡ (x == s || covers l x)) × (r.1 ≡ not (covers l s))

extend_or_insert-IsSetAt :
    (lo s : ℕ) (e : LifeEntry) (es : List LifeEntry)
    → lo ≤ s
    → s < e.start
    → IsLifeFrom lo (e ∷ es)
    → IsSetAt lo s (e ∷ es) (extend_or_insert s e es)
unfolding extend_or_insert
extend_or_insert-IsSetAt lo s e es p q h =
    (ground arith, λ x. ground arith, ground (arith, covers-below (e.end + 2) es s))

set_after-IsSetAt :
    (lo s : ℕ) (e : LifeEntry)
    → e.start ≤ s
    → IsLifeFrom lo (e ∷ [])
    → IsSetAt lo s (e ∷ []) (set_after s e)
unfolding set_after
set_after-IsSetAt lo s e p h = (ground arith, λ x. ground arith, ground arith)

set_between-IsSetAt :
    (lo s : ℕ) (b e : LifeEntry) (es : List LifeEntry)
    → b.start ≤ s
    → s < e.start
    → IsLifeFrom lo (b ∷ e ∷ es)
    → IsSetAt lo s (b ∷ e ∷ es) (set_between s b e es)
unfolding set_between
set_between-IsSetAt lo s b e es p q h =
    (ground arith, λ x. ground arith, ground (arith, covers-below (e.end + 2) es s))

set_past-IsSetAt :
    (lo s : ℕ) (b : LifeEntry) (es : List LifeEntry)
    → b.start ≤ s
    → IsLifeFrom lo (b ∷ es)
    → IsSetAt lo s (b ∷ es) (set_past s b es)
unfolding set_past
set_past-IsSetAt lo s b [] p h = set_after-IsSetAt lo s b p h
set_past-IsSetAt lo s b (e ∷ es) p h = elim (Bool-cases (ltb s e.start)) [
  | inl before ↦ rw before (set_between-IsSetAt lo s b e es p (ltb→lt s e.start before) h)
  | inr after ↦
      let later = set_past-IsSetAt (b.end + 2) s e es (ground arith) h.2 in
      rw after ((h.0, h.1, later.0), (λ x. ground (arith, later.1 x)), ground (arith, later.2))
]

set_alive-IsSetAt : (s : ℕ) (l : List LifeEntry) → IsLifeFrom 0 l → IsSetAt 0 s l (set_alive s l)
unfolding set_alive
set_alive-IsSetAt s [] h = (omega arith, (λ x. ground arith), refl)
set_alive-IsSetAt s (e ∷ es) h = elim (Bool-cases (ltb s e.start)) [
  | inl before ↦
      rw before (extend_or_insert-IsSetAt 0 s e es (omega arith) (ltb→lt s e.start before) h)
  | inr after ↦ rw after (set_past-IsSetAt 0 s e es (ground arith) h)
]

-- `setAlive` on ordered ranges keeps them ordered, adds the one place `s` to those that `lives`
-- finds, and returns true exactly when `s` was not among them.
pub set_alive-lives :
    (s : ℕ) (l : List LifeEntry)
    → IsLifeFrom 0 l
    → IsLifeFrom 0 (set_alive s l).0
      × ((x : ℕ) → lives (set_alive s l).0 x ≡ (x == s || lives l x))
      × ((set_alive s l).1 ≡ not (lives l s))
set_alive-lives s l h =
    let r = set_alive-IsSetAt s l h in
    (
      r.0,
      (λ x. rw (lives-eq-covers 0 (set_alive s l).0 x r.0, lives-eq-covers 0 l x h) (r.1 x)),
      rw (lives-eq-covers 0 l s h) r.2,
    )
