-- ===== src/Table/Lookup.antt =====
-- Lookups after an insertion.
use native.Mathlib.Nat.{mod-lt}
use Prim.Native.Nat.{lt}
use gmqcc.Prelude.{
  ℕ, ◌<◌, ◌≡◌, ◌≢◌, refl, sym, List, [], ◌∷◌, some, inl, inr, get_elem?-set_self, get_elem?-set_ne,
  length, length-set, ◌∙◌, ℕ_discrete, set, ◌%◌,
}
use gmqcc.Vm.Words.Blocks.{get_elem?-some}
use gmqcc.Table.{
  Node, HashTable, strcmp, hash, set_in, get_in, htseth, htgeth, htset, htget, hthash,
}
use gmqcc.Table.Compare.{Ordering-cases, strcmp_self, strcmp-eq, strcmp-lt_trans}

get_in-set_in_self : (key : List ℕ) (v : ℕ) (ns : List Node) → get_in key (set_in key v ns) ≡ v
unfolding get_in set_in
get_in-set_in_self key v [] = rw (get_in, strcmp_self key)
get_in-set_in_self key v (n ∷ ns) = elim (Ordering-cases (strcmp key n.key)) [
  | inl e ↦ rw (set_in, e, get_in, strcmp_self key)
  | inr (inl e) ↦ rw (set_in, e, get_in, e)
  | inr (inr e) ↦ rw (set_in, e, get_in, e) (get_in-set_in_self key v ns)
]

-- A node that is not the key's is passed or ends the walk.
get_in-ne :
    (other key : List ℕ) (v w : ℕ) (ns : List Node)
    → key ≢ other
    → get_in other (record { key = key; value = v } ∷ ns)
      ≡ get_in other (record { key = key; value = w } ∷ ns)
unfolding get_in
get_in-ne other key v w ns d = elim (Ordering-cases (strcmp other key)) [
  | inl e ↦ rw (get_in, e)
  | inr (inl e) ↦ absurd (d (sym (strcmp-eq other key e)))
  | inr (inr e) ↦ rw (get_in, e)
]

-- A node put before `n` changes no lookup of another key.
get_in-before :
    (other key : List ℕ) (v : ℕ) (n : Node) (ns : List Node)
    → key ≢ other
    → strcmp key n.key ≡ lt
    → get_in other (record { key = key; value = v } ∷ n ∷ ns) ≡ get_in other (n ∷ ns)
unfolding get_in
get_in-before other key v n ns d before = elim (Ordering-cases (strcmp other key)) [
  | inl e ↦ rw (get_in, e, strcmp-lt_trans other key n.key e before)
  | inr (inl e) ↦ absurd (d (sym (strcmp-eq other key e)))
  | inr (inr e) ↦ rw (get_in, e)
]

get_in-set_in_ne :
    (key other : List ℕ) (v : ℕ) (ns : List Node)
    → key ≢ other
    → get_in other (set_in key v ns) ≡ get_in other ns
unfolding get_in set_in
get_in-set_in_ne key other v [] d = elim (Ordering-cases (strcmp other key)) [
  | inl e ↦ rw (get_in, e)
  | inr (inl e) ↦ absurd (d (sym (strcmp-eq other key e)))
  | inr (inr e) ↦ rw (get_in, e)
]
get_in-set_in_ne key other v (n ∷ ns) d = elim (Ordering-cases (strcmp key n.key)) [
  | inl e ↦ rw (set_in, e) (get_in-before other key v n ns d e)
  | inr (inl e) ↦
      rw (set_in, e) (get_in-ne other n.key v n.value ns (λ s. d (strcmp-eq key n.key e ∙ s)))
  | inr (inr e) ↦ elim (Ordering-cases (strcmp other n.key)) [
    | inl f ↦ rw (set_in, e, get_in, f)
    | inr (inl f) ↦ rw (set_in, e, get_in, f)
    | inr (inr f) ↦ rw (set_in, e, get_in, f) (get_in-set_in_ne key other v ns d)
  ]
]

-- The bins after an insertion into one of them.
htgeth-htseth :
    (ht : HashTable) (key : List ℕ) (bin v : ℕ)
    → bin < length ht.table
    → (ht' : HashTable) × (htseth ht key bin v ≡ some ht')
      × (htgeth ht' key bin ≡ some v)
      × ((other : List ℕ) (i : ℕ) → key ≢ other → htgeth ht' other i ≡ htgeth ht other i)
      × (ht'.size ≡ ht.size)
      × (length ht'.table ≡ length ht.table)
unfolding htseth htgeth
htgeth-htseth ht key bin v h =
    let nodes = get_elem?-some ht.table bin h in
    let changed = set_in key v nodes.0 in
    (
      record ht { table = set ht.table bin changed },
      rw nodes.1,
      rw (get_elem?-set_self ht.table bin changed h, get_in-set_in_self key v nodes.0),
      λ other i d. elim (ℕ_discrete bin i) [
        | yes same ↦ rw (
          ← same,
          get_elem?-set_self ht.table bin changed h,
          nodes.1,
          get_in-set_in_ne key other v nodes.0 d,
        )
        | no differ ↦ rw (get_elem?-set_ne ht.table changed differ)
      ],
      refl,
      length-set ht.table bin changed,
    )

pub hthash-lt : (ht : HashTable) (key : List ℕ) → 0 < ht.size → hthash ht key < ht.size
unfolding hthash
hthash-lt ht key h = mod-lt (hash key) h

-- `util_htset` on a table with as many bins as its size, which is not 0, puts the value under the
-- key: `util_htget` finds it, and finds for each other key what it found before.
pub htget-htset :
    (ht : HashTable) (key : List ℕ) (v : ℕ)
    → 0 < ht.size
    → length ht.table ≡ ht.size
    → (ht' : HashTable) × (htset ht key v ≡ some ht')
      × (htget ht' key ≡ some v)
      × ((other : List ℕ) → key ≢ other → htget ht' other ≡ htget ht other)
      × (ht'.size ≡ ht.size)
      × (length ht'.table ≡ ht.size)
unfolding htset htget hthash
htget-htset ht key v h p =
    let r = htgeth-htseth ht key (hthash ht key) v (rw p (hthash-lt ht key h)) in
    (r.0, r.1, rw r.4 r.2, (λ other d. rw r.4 (r.3 other (hash other % ht.size) d)), r.4, r.5 ∙ p)
