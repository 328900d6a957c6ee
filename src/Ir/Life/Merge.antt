-- ===== src/Ir/Life/Merge.antt =====
-- `mergeLife` and the union of two sets of places.
use gmqcc.Prelude.{
  ℕ, ◌+◌, ◌≤◌, ◌≡◌, refl, true, false, ◌||◌, List, [], ◌∷◌, arith, ltb, leb, Bool-cases, inl, inr,
  ◌⊎◌, dec_lt, if◌then◌else◌,
}
use gmqcc.Ir.Life.{LifeEntry, within, lives, widen, settle, visit, merge_from, merge_life}
use gmqcc.Ir.Life.Ranges.{IsLifeFrom, IsLifeFrom-mono, covers, lives-eq-covers}

-- `r` is ordered from `lo` on and holds the places of `a` and those of `b`.
abbrev pub IsUnion : ℕ → List LifeEntry → List LifeEntry → List LifeEntry → Type 0
IsUnion lo a b r = IsLifeFrom lo r × ((x : ℕ) → covers r x ≡ (covers a x || covers b x))

-- The rest of the loop joins the ranges `others` to what stands from the cursor on.
abbrev Joins : List LifeEntry → (LifeEntry → List LifeEntry → List LifeEntry) → Type 0
Joins others next =
    (lo : ℕ) (e : LifeEntry) (es : List LifeEntry)
    → IsLifeFrom lo (e ∷ es)
    → IsLifeFrom lo others
    → IsUnion lo (e ∷ es) others (next e es)

-- What the two tests of `widen` come to where `e` does not start behind a gap after `o`: `e` takes
-- `o` in, or it ends before a gap.
Takes : LifeEntry → LifeEntry → LifeEntry → Type 0
Takes o e w =
    (w.start ≤ o.start)
    × (o.end ≤ w.end)
    × (w.start ≤ e.start)
    × (e.end ≤ w.end)
    × ((x : ℕ) → within w x ≡ (within e x || within o x))
    × ((w.start ≡ e.start) ⊎ (w.start ≡ o.start))

widen-cases :
    (o e : LifeEntry)
    → e.start ≤ e.end
    → o.start ≤ o.end
    → e.start ≤ o.end + 1
    → Takes o e (widen o e) ⊎ ((widen o e ≡ e) × (e.end + 2 ≤ o.start))
unfolding widen Takes
widen-cases o e p q r = elim (dec_lt (e.end + 1) o.start) [
  | yes gap ↦ inr (ground arith, omega arith)
  | no near ↦
      inl (ground arith, ground arith, ground arith, ground arith, λ x. ground arith, ground arith)
]

module _ (o : LifeEntry) (others : List LifeEntry)
    (next : LifeEntry → List LifeEntry → List LifeEntry) (joins : Joins others next) where
  -- The cursor's range `e` has taken `o` in.
  settle-taken :
      (lo m : ℕ) (e : LifeEntry) (es : List LifeEntry)
      → lo ≤ e.start
      → e.start ≤ m
      → IsLifeFrom m es
      → e.start ≤ o.start
      → o.start ≤ o.end
      → o.end ≤ e.end
      → IsLifeFrom (o.end + 2) others
      → IsUnion lo (e ∷ es) (o ∷ others) (settle o next e es)
  unfolding settle
  settle-taken lo m e [] a b h p q r k =
      let j = joins lo e [] (omega arith) (IsLifeFrom-mono (o.end + 2) lo others k (omega arith)) in
      (ground (arith, j.0), λ x. ground (arith, j.1 x))
  settle-taken lo m e (l ∷ ls) a b h p q r k = elim (Bool-cases (leb l.start (e.end + 1))) [
    | inl near ↦
        let w : LifeEntry = if ltb e.end l.end then record e { end = l.end } else e in
        let j =
          settle-taken lo (l.end + 2) w ls (ground arith) (ground arith) h.2 (ground arith) q
            (ground arith) k in
        rw near (j.0, λ x. ground (arith, j.1 x))
    | inr far ↦
        let past : ltb e.end o.start ≡ false = ground arith in
        let j =
          joins lo e (l ∷ ls) (ground arith)
            (IsLifeFrom-mono (o.end + 2) lo others k (omega arith)) in
        rw (far, past) (j.0, λ x. ground (arith, j.1 x))
  ]

  -- The cursor's range `e` is widened by `o`; `passed` is for the case that `o` lies behind a gap.
  settle-widened :
      (lo : ℕ) (e : LifeEntry) (es : List LifeEntry)
      → IsLifeFrom lo (e ∷ es)
      → e.start ≤ o.end + 1
      → IsLifeFrom lo (o ∷ others)
      → (e.end + 2 ≤ o.start → IsUnion lo (e ∷ es) (o ∷ others) (settle o next e es))
      → IsUnion lo (e ∷ es) (o ∷ others) (settle o next (widen o e) es)
  unfolding Takes
  settle-widened lo e es h p k passed = elim (widen-cases o e h.1 k.1 p) [
    | inl t ↦
        let j =
          settle-taken lo (e.end + 2) (widen o e) es (ground arith) (ground arith) h.2 t.0 k.1 t.1
            k.2 in
        (j.0, λ x. ground (arith, j.1 x, t.4 x))
    | inr (same, gap) ↦ rw same (passed gap)
  ]

  -- The cursor's range `e` ends before a gap in front of `o`.
  settle-passed :
      (lo : ℕ) (e : LifeEntry) (es : List LifeEntry)
      → IsLifeFrom lo (e ∷ es)
      → e.end + 2 ≤ o.start
      → IsLifeFrom lo (o ∷ others)
      → IsUnion lo (e ∷ es) (o ∷ others) (settle o next e es)
  unfolding settle
  settle-passed lo e [] h p k =
      let j =
        joins (e.end + 2) o [] (ground arith)
          (IsLifeFrom-mono (o.end + 2) (e.end + 2) others k.2 (omega arith)) in
      let past : ltb e.end o.start ≡ true = ground arith in
      rw past ((h.0, h.1, j.0), λ x. ground (arith, j.1 x))
  settle-passed lo e (l ∷ ls) h p k =
      let far : leb l.start (e.end + 1) ≡ false = ground arith in
      let past : ltb e.end o.start ≡ true = ground arith in
      elim (Bool-cases (ltb (o.end + 1) l.start)) [
        | inl before ↦
            let j = joins (o.end + 2) l ls (ground arith) k.2 in
            rw (far, past, before) ((h.0, h.1, (p, k.1, j.0)), λ x. ground (arith, j.1 x))
        | inr near ↦
            let j =
              settle-widened (e.end + 2) l ls h.2 (ground arith) (p, k.1, k.2)
                (λ gap. settle-passed (e.end + 2) l ls h.2 gap (p, k.1, k.2)) in
            rw (far, past, near) ((h.0, h.1, j.0), λ x. ground (arith, j.1 x))
      ]

  visit-IsUnion :
      (lo : ℕ) (e : LifeEntry) (es : List LifeEntry)
      → IsLifeFrom lo (e ∷ es)
      → IsLifeFrom lo (o ∷ others)
      → IsUnion lo (e ∷ es) (o ∷ others) (visit o next e es)
  unfolding visit
  visit-IsUnion lo e es h k = elim (Bool-cases (ltb (o.end + 1) e.start)) [
    | inl before ↦
        let j = joins (o.end + 2) e es (ground arith) k.2 in
        rw before ((k.0, k.1, j.0), λ x. ground (arith, j.1 x))
    | inr near ↦
        rw near (settle-widened lo e es h (ground arith) k (λ gap. settle-passed lo e es h gap k))
  ]

merge_from-IsUnion : (others : List LifeEntry) → Joins others (merge_from others)
unfolding merge_from
merge_from-IsUnion [] lo e es h k = (h, λ x. ground arith)
merge_from-IsUnion (o ∷ others) lo e es h k =
    visit-IsUnion o others (merge_from others) (merge_from-IsUnion others) lo e es h k

pub merge_life-IsUnion :
    (mine others : List LifeEntry)
    → IsLifeFrom 0 mine
    → IsLifeFrom 0 others
    → IsUnion 0 mine others (merge_life mine others)
unfolding merge_life
merge_life-IsUnion [] [] h k = (h, λ x. refl)
merge_life-IsUnion [] (o ∷ others) h k = (k, λ x. refl)
merge_life-IsUnion (m ∷ mine) [] h k = (h, λ x. ground arith)
merge_life-IsUnion (m ∷ mine) (o ∷ others) h k = merge_from-IsUnion (o ∷ others) 0 m mine h k

-- `mergeLife` of two values with ordered ranges leaves ordered ranges, in which a place lives
-- exactly if it lives in one of the two values.
pub merge_life-lives :
    (mine others : List LifeEntry)
    → IsLifeFrom 0 mine
    → IsLifeFrom 0 others
    → IsLifeFrom 0 (merge_life mine others)
      × ((x : ℕ) → lives (merge_life mine others) x ≡ (lives mine x || lives others x))
merge_life-lives mine others h k =
    let r = merge_life-IsUnion mine others h k in
    (
      r.0,
      λ x.
          rw
            (
              lives-eq-covers 0 (merge_life mine others) x r.0,
              lives-eq-covers 0 mine x h,
              lives-eq-covers 0 others x k,
            )
            (r.1 x),
    )
