-- ===== src/Table/Tests.antt =====
-- Runs of the hash table.
use mathlib.Core.Option.{some-injective}
use gmqcc.Prelude.{ℕ, zero, suc, subst, Option, ◌≡◌, ◌≢◌, refl, List, [], ◌∷◌, some, arith, length}
use gmqcc.Table.{htrm, HashTable, strcmp, htset, htget, get_suffix_in}
use gmqcc.Table.Lookup.{htget-htset}
use gmqcc.Table.Removal.{Ascends, IsAscending, htget-htrm, htset-IsAscending}

-- Two bins, of which the second holds the string "ab".
abbrev some_table : HashTable
some_table = record {
  size = 2;
  table = [] ∷ (record { key = b'a' ∷ b'b' ∷ []; value = 7 } ∷ []) ∷ [];
}

-- "ab" and its end "b" are found.
get_suffix_in_runs :
    (get_suffix_in (b'b' ∷ []) (record { key = b'a' ∷ b'b' ∷ []; value = 7 } ∷ []) ≡ 8)
    × (get_suffix_in (b'a' ∷ b'b' ∷ []) (record { key = b'a' ∷ b'b' ∷ []; value = 7 } ∷ []) ≡ 7)
unfolding get_suffix_in strcmp
get_suffix_in_runs = (refl, refl)

htget-htset_example :
    (ht' : HashTable) × (htset some_table (b'x' ∷ []) 9 ≡ some ht')
    × (htget ht' (b'x' ∷ []) ≡ some 9)
    × ((other : List ℕ) → b'x' ∷ [] ≢ other → htget ht' other ≡ htget some_table other)
    × (ht'.size ≡ 2)
    × (length ht'.table ≡ 2)
htget-htset_example = htget-htset some_table (b'x' ∷ []) 9 (omega arith) refl

some_table-IsAscending : IsAscending some_table
some_table-IsAscending zero ns e = subst Ascends (some-injective [] ns e) tt
some_table-IsAscending (suc zero) ns e =
    subst Ascends (some-injective (record { key = b'a' ∷ b'b' ∷ []; value = 7 } ∷ []) ns e) (tt, tt)
some_table-IsAscending (suc (suc i)) ns e = cc e

htget-htrm_example :
    (ht' : HashTable) × (removed : Option ℕ) × (htrm some_table (b'a' ∷ b'b' ∷ [])
      ≡ some (ht', removed))
    × (htget ht' (b'a' ∷ b'b' ∷ []) ≡ some 0)
    × ((other : List ℕ) → b'a' ∷ b'b' ∷ [] ≢ other → htget ht' other ≡ htget some_table other)
    × IsAscending ht'
htget-htrm_example =
    htget-htrm some_table (b'a' ∷ b'b' ∷ []) (omega arith) refl some_table-IsAscending

htset-IsAscending_example :
    (ht' : HashTable) × (htset some_table (b'x' ∷ []) 9 ≡ some ht') × IsAscending ht'
htset-IsAscending_example =
    htset-IsAscending some_table (b'x' ∷ []) 9 (omega arith) refl some_table-IsAscending
