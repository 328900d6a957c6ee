-- ===== src/Table/Removal.antt =====
-- Removals from bins whose keys ascend, and how the operations keep that order.
use mathlib.Core.Option.{some-injective}
use Prim.Native.Nat.{lt}
use gmqcc.Prelude.{
  ℕ, ◌<◌, ◌%◌, ◌≡◌, ◌≢◌, ◌∙◌, refl, sym, subst, List, [], ◌∷◌, Option, some, inl, inr, length,
  get_elem?, set, get_elem?-set_self, get_elem?-set_ne, ℕ_discrete,
}
use gmqcc.Vm.Words.Blocks.{get_elem?-some}
use gmqcc.Table.{
  Node, HashTable, strcmp, set_in, get_in, rm_in, htgeth, htrmh, htrm, htget, htset, htseth, hthash,
  hash,
}
use gmqcc.Table.Lookup.{hthash-lt}
use gmqcc.Table.Compare.{Ordering-cases, strcmp-eq, strcmp-lt_trans, strcmp-flip}

-- The key stands before the first one of the nodes.
abbrev Before : List ℕ → List Node → Type 0
Before key [] = Unit
Before key (n ∷ ns) = strcmp key n.key ≡ lt

abbrev pub Ascends : List Node → Type 0
Ascends [] = Unit
Ascends (n ∷ ns) = Before n.key ns × Ascends ns

Before-trans : (a b : List ℕ) (ns : List Node) → strcmp a b ≡ lt → Before b ns → Before a ns
Before-trans a b [] h k = tt
Before-trans a b (n ∷ ns) h k = strcmp-lt_trans a b n.key h k

get_in-Before : (key : List ℕ) (ns : List Node) → Before key ns → get_in key ns ≡ 0
unfolding get_in
get_in-Before key [] h = refl
get_in-Before key (n ∷ ns) h = rw (get_in, h)

Before-set_in :
    (k key : List ℕ) (v : ℕ) (ns : List Node)
    → strcmp k key ≡ lt
    → Before k ns
    → Before k (set_in key v ns)
unfolding set_in
Before-set_in k key v [] h b = h
Before-set_in k key v (n ∷ ns) h b = elim (Ordering-cases (strcmp key n.key)) [
  | inl e ↦ rw (set_in, e) h
  | inr (inl e) ↦ rw (set_in, e) b
  | inr (inr e) ↦ rw (set_in, e) b
]

-- The walk of `util_htseth` keeps the keys of a bin ascending.
pub set_in-Ascends :
    (key : List ℕ) (v : ℕ) (ns : List Node) → Ascends ns → Ascends (set_in key v ns)
unfolding set_in
set_in-Ascends key v [] h = (tt, tt)
set_in-Ascends key v (n ∷ ns) h = elim (Ordering-cases (strcmp key n.key)) [
  | inl e ↦ rw (set_in, e) (e, h)
  | inr (inl e) ↦ rw (set_in, e) h
  | inr (inr e) ↦
      rw (set_in, e)
        (Before-set_in n.key key v ns (strcmp-flip key n.key e) h.0, set_in-Ascends key v ns h.1)
]

Before-rm_in :
    (k key : List ℕ) (ns : List Node) → Ascends ns → Before k ns → Before k (rm_in key ns).0
unfolding rm_in
Before-rm_in k key [] h b = tt
Before-rm_in k key (n ∷ ns) h b = elim (Ordering-cases (strcmp key n.key)) [
  | inl e ↦ rw (rm_in, e) b
  | inr (inl e) ↦ rw (rm_in, e) (Before-trans k n.key ns b h.0)
  | inr (inr e) ↦ rw (rm_in, e) b
]

rm_in-Ascends : (key : List ℕ) (ns : List Node) → Ascends ns → Ascends (rm_in key ns).0
unfolding rm_in
rm_in-Ascends key [] h = tt
rm_in-Ascends key (n ∷ ns) h = elim (Ordering-cases (strcmp key n.key)) [
  | inl e ↦ rw (rm_in, e) h
  | inr (inl e) ↦ rw (rm_in, e) h.1
  | inr (inr e) ↦ rw (rm_in, e) (Before-rm_in n.key key ns h.1 h.0, rm_in-Ascends key ns h.1)
]

get_in-rm_in_self : (key : List ℕ) (ns : List Node) → Ascends ns → get_in key (rm_in key ns).0 ≡ 0
unfolding get_in rm_in
get_in-rm_in_self key [] h = refl
get_in-rm_in_self key (n ∷ ns) h = elim (Ordering-cases (strcmp key n.key)) [
  | inl e ↦ rw (rm_in, e, get_in, e)
  | inr (inl e) ↦
      rw (rm_in, e)
        (get_in-Before key ns (subst (λ k. Before k ns) (sym (strcmp-eq key n.key e)) h.0))
  | inr (inr e) ↦ rw (rm_in, e, get_in, e) (get_in-rm_in_self key ns h.1)
]

get_in-rm_in_ne :
    (key other : List ℕ) (ns : List Node)
    → Ascends ns
    → key ≢ other
    → get_in other (rm_in key ns).0 ≡ get_in other ns
unfolding get_in rm_in
get_in-rm_in_ne key other [] h d = refl
get_in-rm_in_ne key other (n ∷ ns) h d = elim (Ordering-cases (strcmp key n.key)) [
  | inl e ↦ rw (rm_in, e)
  | inr (inl e) ↦ elim (Ordering-cases (strcmp other n.key)) [
    | inl f ↦ rw (rm_in, e, get_in, f) (get_in-Before other ns (Before-trans other n.key ns f h.0))
    | inr (inl f) ↦ absurd (d (strcmp-eq key n.key e ∙ sym (strcmp-eq other n.key f)))
    | inr (inr f) ↦ rw (rm_in, e, get_in, f)
  ]
  | inr (inr e) ↦ elim (Ordering-cases (strcmp other n.key)) [
    | inl f ↦ rw (rm_in, e, get_in, f)
    | inr (inl f) ↦ rw (rm_in, e, get_in, f)
    | inr (inr f) ↦ rw (rm_in, e, get_in, f) (get_in-rm_in_ne key other ns h.1 d)
  ]
]

-- The keys of each bin ascend.
abbrev pub IsAscending : HashTable → Type 0
IsAscending ht = (i : ℕ) (ns : List Node) → get_elem? ht.table i ≡ some ns → Ascends ns

Ascends-set :
    (bins : List (List Node)) (bin : ℕ) (new : List Node)
    → bin < length bins
    → Ascends new
    → ((i : ℕ) (ns : List Node) → get_elem? bins i ≡ some ns → Ascends ns)
    → (i : ℕ) (ns : List Node) → get_elem? (set bins bin new) i ≡ some ns
    → Ascends ns
Ascends-set bins bin new p a h i ns e = elim (ℕ_discrete bin i) [
  | yes same ↦
      subst Ascends (some-injective new ns (rw (← same, get_elem?-set_self bins bin new p) at e)) a
  | no differ ↦ h i ns (rw (get_elem?-set_ne bins new differ) at e)
]

htgeth-htrmh :
    (ht : HashTable) (key : List ℕ) (bin : ℕ)
    → bin < length ht.table
    → IsAscending ht
    → (ht' : HashTable) × (removed : Option ℕ) × (htrmh ht key bin ≡ some (ht', removed))
      × (htgeth ht' key bin ≡ some 0)
      × ((other : List ℕ) (i : ℕ) → key ≢ other → htgeth ht' other i ≡ htgeth ht other i)
      × IsAscending ht'
      × (ht'.size ≡ ht.size)
unfolding htrmh htgeth
htgeth-htrmh ht key bin h a =
    let nodes = get_elem?-some ht.table bin h in
    let sorted = a bin nodes.0 nodes.1 in
    let rest = (rm_in key nodes.0).0 in
    (
      record ht { table = set ht.table bin rest },
      (rm_in key nodes.0).1,
      rw nodes.1,
      rw (get_elem?-set_self ht.table bin rest h, get_in-rm_in_self key nodes.0 sorted),
      (λ other i d. elim (ℕ_discrete bin i) [
        | yes same ↦ rw (
          ← same,
          get_elem?-set_self ht.table bin rest h,
          nodes.1,
          get_in-rm_in_ne key other nodes.0 sorted d,
        )
        | no differ ↦ rw (get_elem?-set_ne ht.table rest differ)
      ]),
      Ascends-set ht.table bin rest h (rm_in-Ascends key nodes.0 sorted) a,
      refl,
    )

-- `util_htrm` on a table with as many bins as its size, which is not 0, and with ascending keys in
-- each bin takes the key out: `util_htget` then finds the null pointer for it, and for each other
-- key what it found before. The keys ascend afterwards.
pub htget-htrm :
    (ht : HashTable) (key : List ℕ)
    → 0 < ht.size
    → length ht.table ≡ ht.size
    → IsAscending ht
    → (ht' : HashTable) × (removed : Option ℕ) × (htrm ht key ≡ some (ht', removed))
      × (htget ht' key ≡ some 0)
      × ((other : List ℕ) → key ≢ other → htget ht' other ≡ htget ht other)
      × IsAscending ht'
unfolding htrm htget hthash
htget-htrm ht key h p a =
    let r = htgeth-htrmh ht key (hthash ht key) (rw p (hthash-lt ht key h)) a in
    (r.0, r.1, r.2, rw r.6 r.3, (λ other d. rw r.6 (r.4 other (hash other % ht.size) d)), r.5)

-- `util_htset` on a table with as many bins as its size, which is not 0, keeps the keys of each bin
-- ascending.
pub htset-IsAscending :
    (ht : HashTable) (key : List ℕ) (v : ℕ)
    → 0 < ht.size
    → length ht.table ≡ ht.size
    → IsAscending ht
    → (ht' : HashTable) × (htset ht key v ≡ some ht') × IsAscending ht'
unfolding htset htseth
htset-IsAscending ht key v h p a =
    let bin = hthash ht key in
    let b : bin < length ht.table = rw p (hthash-lt ht key h) in
    let nodes = get_elem?-some ht.table bin b in
    let new = set_in key v nodes.0 in
    (
      record ht { table = set ht.table bin new },
      rw nodes.1,
      Ascends-set ht.table bin new b (set_in-Ascends key v nodes.0 (a bin nodes.0 nodes.1)) a,
    )
