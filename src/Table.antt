-- ===== src/Table.antt =====
-- The hash table of stat.cpp. A node's value is a pointer as the number of its bits, 0 for the null
-- pointer. A key is the list of its bytes before the 0 that ends it, and a bin is the list of its
-- nodes. Allocations succeed.
pub mod Compare
pub mod Lookup
pub mod Removal
mod Tests
use Prim.Native.Nat.{compare, Ordering, lt, eq, gt, bit_xor}
use gmqcc.Prelude.{
  ℕ, zero, suc, ◌+◌, ◌-◌, ◌*◌, ◌/◌, ◌%◌, ◌^◌, Bool, List, [], ◌∷◌, Option, none, some, ltb, ◌==◌,
  if◌then◌else◌, length, get_elem?, set, drop, replicate,
}
use gmqcc.Vm.Words.{◌>>=◌}

-- `strcmp`, which compares bytes as `unsigned char`.
unfoldable pub strcmp : List ℕ → List ℕ → Ordering
strcmp [] [] = eq
strcmp [] (b ∷ bs) = lt
strcmp (a ∷ as') [] = gt
strcmp (a ∷ as') (b ∷ bs) = elim (compare a b) [ lt ↦ lt | eq ↦ strcmp as' bs | gt ↦ gt ]

-- A byte of a key as it is added to a `size_t`: `char` is signed.
abbrev pub signed_byte : ℕ → ℕ
signed_byte c = if ltb c 128 then c else c + 2 ^ 64 - 256

unfoldable pub hash_from : ℕ → List ℕ → ℕ
hash_from h [] = h
hash_from h (c ∷ cs) =
    let added = (h + signed_byte c) % 2 ^ 64 in
    let spread = (added + added * 2 ^ 10) % 2 ^ 64 in hash_from (bit_xor spread (spread / 2 ^ 6)) cs

unfoldable pub hash : List ℕ → ℕ
unfolding hash_from
hash key =
    let h = hash_from 0 key in
    let a = (h + h * 2 ^ 3) % 2 ^ 64 in let b = bit_xor a (a / 2 ^ 11) in (b + b * 2 ^ 15) % 2 ^ 64

pub record Node : Type 0 where
  pub key : List ℕ
  pub value : ℕ

pub record HashTable : Type 0 where
  pub size : ℕ
  pub table : List (List Node)

unfoldable pub hthash : HashTable → List ℕ → ℕ
unfolding hash
hthash ht key = hash key % ht.size

-- The walk of `util_htseth` along a bin.
unfoldable pub set_in : List ℕ → ℕ → List Node → List Node
unfolding strcmp
set_in key value [] = record { key = key; value = value } ∷ []
set_in key value (n ∷ ns) = elim (strcmp key n.key) [
  | gt ↦ n ∷ set_in key value ns
  | eq ↦ record n { value = value } ∷ ns
  | lt ↦ record { key = key; value = value } ∷ n ∷ ns
]

unfoldable pub htseth : HashTable → List ℕ → ℕ → ℕ → Option HashTable
unfolding set_in
htseth ht key bin value = do
  nodes ← get_elem? ht.table bin
  some (record ht { table = set ht.table bin (set_in key value nodes) })

unfoldable pub htset : HashTable → List ℕ → ℕ → Option HashTable
unfolding htseth hthash
htset ht key value = htseth ht key (hthash ht key) value

-- The walk of `util_htgeth` along a bin.
unfoldable pub get_in : List ℕ → List Node → ℕ
unfolding strcmp
get_in key [] = 0
get_in key (n ∷ ns) = elim (strcmp key n.key) [ gt ↦ get_in key ns | eq ↦ n.value | lt ↦ 0 ]

unfoldable pub htgeth : HashTable → List ℕ → ℕ → Option ℕ
unfolding get_in
htgeth ht key bin = do nodes ← get_elem? ht.table bin; some (get_in key nodes)

unfoldable pub htget : HashTable → List ℕ → Option ℕ
unfolding htgeth hthash
htget ht key = htgeth ht key (hthash ht key)

-- The walk of `code_util_str_htgeth`, which also finds a key that ends in the string.
unfoldable pub get_suffix_in : List ℕ → List Node → ℕ
unfolding strcmp
get_suffix_in key [] = 0
get_suffix_in key (n ∷ ns) =
    let rest = get_suffix_in key ns in
    let ahead = length n.key - length key in
    if ltb (length n.key) (length key)
    then rest
    else if length key == length n.key
    then (elim (strcmp key n.key) [ gt ↦ rest | eq ↦ n.value | lt ↦ 0 ])
    else (elim (strcmp key (drop ahead n.key)) [ gt ↦ rest | eq ↦ n.value + ahead | lt ↦ rest ])

unfoldable pub str_htgeth : HashTable → List ℕ → ℕ → Option ℕ
unfolding get_suffix_in
str_htgeth ht key bin = do nodes ← get_elem? ht.table bin; some (get_suffix_in key nodes)

-- The walk of `util_htrmh` along a bin, and the value that the callback gets if the key is there.
unfoldable pub rm_in : List ℕ → List Node → List Node × Option ℕ
unfolding strcmp
rm_in key [] = ([], none)
rm_in key (n ∷ ns) =
    let rest = rm_in key ns in
    elim (strcmp key n.key) [
      | gt ↦ (n ∷ rest.0, rest.1)
      | eq ↦ (ns, some n.value)
      | lt ↦ (n ∷ ns, none)
    ]

unfoldable pub htrmh : HashTable → List ℕ → ℕ → Option (HashTable × Option ℕ)
unfolding rm_in
htrmh ht key bin = do
  nodes ← get_elem? ht.table bin
  let r = rm_in key nodes
  some (record ht { table = set ht.table bin r.0 }, r.1)

unfoldable pub htrm : HashTable → List ℕ → Option (HashTable × Option ℕ)
unfolding htrmh hthash
htrm ht key = htrmh ht key (hthash ht key)

-- `util_htnew` returns null for a size of 0.
unfoldable pub htnew : ℕ → Option HashTable
htnew zero = none
htnew (suc n) = some (record { size = suc n; table = replicate (suc n) [] })
