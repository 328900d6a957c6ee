-- ===== src/Table/Compare.antt =====
-- The order of the keys by `strcmp`.
use Prim.Native.Nat.{compare, Ordering, lt, eq, gt}
use gmqcc.Prelude.{ℕ, ◌≡◌, refl, List, [], ◌∷◌, arith, ap₂, ◌⊎◌, inl, inr}
use gmqcc.Table.{strcmp}

pub Ordering-cases : (o : Ordering) → (o ≡ lt) ⊎ (o ≡ eq) ⊎ (o ≡ gt)
Ordering-cases lt = inl refl
Ordering-cases eq = inr (inl refl)
Ordering-cases gt = inr (inr refl)

compare-cases : (a b : ℕ) → (compare a b ≡ lt) ⊎ (compare a b ≡ eq) ⊎ (compare a b ≡ gt)
compare-cases a b = Ordering-cases (compare a b)

pub strcmp_self : (a : List ℕ) → strcmp a a ≡ eq
unfolding strcmp
strcmp_self [] = refl
strcmp_self (a ∷ as') = ground (arith, strcmp_self as')

pub strcmp-eq : (a b : List ℕ) → strcmp a b ≡ eq → a ≡ b
unfolding strcmp
strcmp-eq [] [] h = refl
strcmp-eq [] (b ∷ bs) h = cc h
strcmp-eq (a ∷ as') [] h = cc h
strcmp-eq (a ∷ as') (b ∷ bs) h = elim (compare-cases a b) [
  | inl less ↦ cc (rw (strcmp, less) at h)
  | inr (inl same) ↦
      let tails : as' ≡ bs = strcmp-eq as' bs (rw (strcmp, same) at h) in
      let heads : a ≡ b = ground arith in ap₂ ◌∷◌ heads tails
  | inr (inr more) ↦ cc (rw (strcmp, more) at h)
]

pub strcmp-lt_trans : (a b c : List ℕ) → strcmp a b ≡ lt → strcmp b c ≡ lt → strcmp a c ≡ lt
unfolding strcmp
strcmp-lt_trans [] [] c h k = cc h
strcmp-lt_trans [] (b ∷ bs) [] h k = cc k
strcmp-lt_trans [] (b ∷ bs) (c ∷ cs) h k = refl
strcmp-lt_trans (a ∷ as') [] c h k = cc h
strcmp-lt_trans (a ∷ as') (b ∷ bs) [] h k = cc k
strcmp-lt_trans (a ∷ as') (b ∷ bs) (c ∷ cs) h k = elim (compare-cases a b) [
  | inl less ↦ elim (compare-cases b c) [
    | inl less' ↦ let across : compare a c ≡ lt = ground arith in rw (strcmp, across)
    | inr (inl same') ↦ let across : compare a c ≡ lt = ground arith in rw (strcmp, across)
    | inr (inr more') ↦ cc (rw (strcmp, more') at k)
  ]
  | inr (inl same) ↦ elim (compare-cases b c) [
    | inl less' ↦ let across : compare a c ≡ lt = ground arith in rw (strcmp, across)
    | inr (inl same') ↦
        let across : compare a c ≡ eq = ground arith in
        rw (strcmp, across)
          (strcmp-lt_trans as' bs cs (rw (strcmp, same) at h) (rw (strcmp, same') at k))
    | inr (inr more') ↦ cc (rw (strcmp, more') at k)
  ]
  | inr (inr more) ↦ cc (rw (strcmp, more) at h)
]

pub strcmp-flip : (a b : List ℕ) → strcmp a b ≡ gt → strcmp b a ≡ lt
unfolding strcmp
strcmp-flip [] [] h = cc h
strcmp-flip [] (b ∷ bs) h = cc h
strcmp-flip (a ∷ as') [] h = refl
strcmp-flip (a ∷ as') (b ∷ bs) h = elim (compare-cases a b) [
  | inl less ↦ cc (rw (strcmp, less) at h)
  | inr (inl same) ↦
      let back : compare b a ≡ eq = ground arith in
      rw (strcmp, back) (strcmp-flip as' bs (rw (strcmp, same) at h))
  | inr (inr more) ↦ let back : compare b a ≡ lt = ground arith in rw (strcmp, back)
]
