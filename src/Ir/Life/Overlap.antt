-- ===== src/Ir/Life/Overlap.antt =====
-- `ir_values_overlap` walks two ordered vectors of ranges side by side. A range is in use between
-- the place where it starts and the place where it ends, so two ranges that share one end do not
-- clash.
use Prim.Native.Nat.{max}
use gmqcc.Prelude.{
  ℕ, ◌+◌, ◌<◌, ◌≡◌, refl, Bool, true, false, ◌&&◌, ◌||◌, List, [], ◌∷◌, arith, ltb, leb, Bool-cases,
  inl, inr, ◌↔◌, ◌⊎◌,
}
use gmqcc.Ir.Life.{LifeEntry, merge_life, clash, overlap_from, values_overlap}
use gmqcc.Ir.Life.Merge.{merge_life-IsUnion}
use gmqcc.Ir.Life.Ranges.{IsLifeFrom, covers, covers-below}

-- No range is a single place.
abbrev pub AreSpans : List LifeEntry → Type 0
AreSpans [] = Unit
AreSpans (e ∷ es) = (e.start < e.end) × AreSpans es

-- Some range is in use between the places `x` and `x + 1`.
abbrev pub busy : List LifeEntry → ℕ → Bool
busy [] x = false
busy (e ∷ es) x = (leb e.start x && ltb x e.end) || busy es x

busy-below : (lo : ℕ) (l : List LifeEntry) (x : ℕ) → IsLifeFrom lo l → x < lo → busy l x ≡ false
busy-below lo [] x h p = refl
busy-below lo (e ∷ es) x h p = ground (arith, busy-below (e.end + 2) es x)

-- Two values are in use at one place.
abbrev pub Meet : List LifeEntry → List LifeEntry → Type 0
Meet a b = (x : ℕ) × (busy a x ≡ true) × (busy b x ≡ true)

clash-Meet :
    (a b : LifeEntry) (as' bs : List LifeEntry)
    → a.start < a.end
    → b.start < b.end
    → clash a b ≡ true
    → Meet (a ∷ as') (b ∷ bs)
clash-Meet a b as' bs p q h = (max a.start b.start, ground arith, ground arith)

Meet-left : (a : LifeEntry) (as' b : List LifeEntry) → Meet as' b → Meet (a ∷ as') b
Meet-left a as' b m = (m.0, ground arith, m.2)

Meet-right :
    (a : List LifeEntry) (b : LifeEntry) (bs : List LifeEntry) → Meet a bs → Meet a (b ∷ bs)
Meet-right a b bs m = (m.0, m.1, ground arith)

overlap_from-Meet :
    (a : LifeEntry) (as' : List LifeEntry) (b : LifeEntry) (bs : List LifeEntry)
    → AreSpans (a ∷ as')
    → AreSpans (b ∷ bs)
    → overlap_from a as' b bs ≡ true
    → Meet (a ∷ as') (b ∷ bs)
unfolding overlap_from
overlap_from-Meet a [] b [] p q h = clash-Meet a b [] [] p.0 q.0 h
overlap_from-Meet a (a' ∷ as') b [] p q h = elim (Bool-cases (clash a b)) [
  | inl hit ↦ clash-Meet a b (a' ∷ as') [] p.0 q.0 hit
  | inr miss ↦ Meet-left a (a' ∷ as') (b ∷ []) (overlap_from-Meet a' as' b [] p.1 q (ground arith))
]
overlap_from-Meet a [] b (b' ∷ bs) p q h = elim (Bool-cases (clash a b)) [
  | inl hit ↦ clash-Meet a b [] (b' ∷ bs) p.0 q.0 hit
  | inr miss ↦ Meet-right (a ∷ []) b (b' ∷ bs) (overlap_from-Meet a [] b' bs p q.1 (ground arith))
]
overlap_from-Meet a (a' ∷ as') b (b' ∷ bs) p q h = elim (Bool-cases (clash a b)) [
  | inl hit ↦ clash-Meet a b (a' ∷ as') (b' ∷ bs) p.0 q.0 hit
  | inr miss ↦ elim (Bool-cases (ltb a.start b.start)) [
    | inl first ↦
        Meet-left a (a' ∷ as') (b ∷ b' ∷ bs)
          (overlap_from-Meet a' as' b (b' ∷ bs) p.1 q (ground arith))
    | inr second ↦
        Meet-right (a ∷ a' ∷ as') b (b' ∷ bs)
          (overlap_from-Meet a (a' ∷ as') b' bs p q.1 (ground arith))
  ]
]

-- The walk misses nothing.
overlap_from-apart :
    (la lb : ℕ) (a : LifeEntry) (as' : List LifeEntry) (b : LifeEntry) (bs : List LifeEntry) (x : ℕ)
    → IsLifeFrom la (a ∷ as')
    → IsLifeFrom lb (b ∷ bs)
    → AreSpans (a ∷ as')
    → overlap_from a as' b bs ≡ false
    → busy (a ∷ as') x ≡ true
    → busy (b ∷ bs) x ≡ false
unfolding overlap_from
overlap_from-apart la lb a [] b [] x h k p e u = ground arith
overlap_from-apart la lb a (a' ∷ as') b [] x h k p e u =
    ground
      (arith, overlap_from-apart (a.end + 2) lb a' as' b [] x, busy-below (a.end + 2) (a' ∷ as') x)
overlap_from-apart la lb a [] b (b' ∷ bs) x h k p e u =
    ground
      (arith, overlap_from-apart la (b.end + 2) a [] b' bs x, busy-below (b.end + 2) (b' ∷ bs) x)
overlap_from-apart la lb a (a' ∷ as') b (b' ∷ bs) x h k p e u = ground (
  arith,
  overlap_from-apart (a.end + 2) lb a' as' b (b' ∷ bs) x,
  overlap_from-apart la (b.end + 2) a (a' ∷ as') b' bs x,
  busy-below (b.end + 2) (b' ∷ bs) x,
  busy-below (a.end + 2) (a' ∷ as') x,
)

-- On ordered ranges, none of which is a single place, `ir_values_overlap` returns true exactly if
-- both values are in use between some place `x` and `x + 1`.
pub values_overlap-Meet :
    (a b : List LifeEntry)
    → IsLifeFrom 0 a
    → IsLifeFrom 0 b
    → AreSpans a
    → AreSpans b
    → (values_overlap a b ≡ true) ↔ Meet a b
unfolding values_overlap
values_overlap-Meet [] b h k p q = ((λ e. cc), λ m. cc)
values_overlap-Meet (e ∷ a) [] h k p q = ((λ e. cc), λ m. absurd (no_meet m))
  where
    no_meet : Meet (e ∷ a) [] → ⊥
    no_meet m = cc
values_overlap-Meet (la ∷ a) (lb ∷ b) h k p q =
    (overlap_from-Meet la a lb b p q, λ m. found m (Bool-cases (overlap_from la a lb b)))
  where
    found :
        Meet (la ∷ a) (lb ∷ b)
        → (overlap_from la a lb b ≡ true) ⊎ (overlap_from la a lb b ≡ false)
        → overlap_from la a lb b ≡ true
    found m (inl e) = e
    found m (inr e) = ground (arith, overlap_from-apart 0 0 la a lb b m.0 h k p e m.1)

-- On ordered ranges a place is in use up to the next one exactly if both live.
pub busy-eq-covers :
    (lo : ℕ) (l : List LifeEntry) (x : ℕ)
    → IsLifeFrom lo l
    → busy l x ≡ (covers l x && covers l (x + 1))
busy-eq-covers lo [] x h = refl
busy-eq-covers lo (e ∷ es) x h = ground (
  arith,
  busy-eq-covers (e.end + 2) es x,
  covers-below (e.end + 2) es x,
  covers-below (e.end + 2) es (x + 1),
)

pub busy-merge_life :
    (a b : List LifeEntry) (x : ℕ)
    → IsLifeFrom 0 a
    → IsLifeFrom 0 b
    → (busy a x || busy b x) ≡ true
    → busy (merge_life a b) x ≡ true
busy-merge_life a b x h k u =
    let r = merge_life-IsUnion a b h k in
    ground (
      arith,
      busy-eq-covers 0 (merge_life a b) x r.0,
      busy-eq-covers 0 a x h,
      busy-eq-covers 0 b x k,
      r.1 x,
      r.1 (x + 1),
    )

-- Where it returns false, the two values are in use nowhere together.
pub values_overlap-apart :
    (a b : List LifeEntry)
    → IsLifeFrom 0 a
    → IsLifeFrom 0 b
    → AreSpans a
    → values_overlap a b ≡ false
    → (x : ℕ) → busy a x ≡ true
    → busy b x ≡ false
unfolding values_overlap
values_overlap-apart [] b h k p e x u = cc
values_overlap-apart (la ∷ a) [] h k p e x u = refl
values_overlap-apart (la ∷ a) (lb ∷ b) h k p e x u = overlap_from-apart 0 0 la a lb b x h k p e u
