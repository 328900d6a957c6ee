-- ===== src/Ir/Life.antt =====
-- The life ranges of a value: `ir_life_entry_t` of ir.h, and `ir_value::lives`, `setAlive`,
-- `mergeLife`, `insertLife` and `ir_values_overlap` of ir.cpp. A vector of ranges is a list, and
-- an index or a pointer that moves forward through it is the tail of the list at that place. Each
-- operation returns the new vector.
pub mod Ranges
pub mod Alive
pub mod Merge
pub mod Overlap
use gmqcc.Prelude.{ℕ, ◌+◌, ◌-◌, Bool, true, false, ◌&&◌, ◌||◌, List, [], ◌∷◌}
use gmqcc.Prelude.{ltb, leb, ◌==◌, if◌then◌else◌}

-- Both ends are inclusive.
pub record LifeEntry : Type 0 where
  pub start : ℕ
  pub end : ℕ

-- The test of one range in `lives`.
abbrev pub within : LifeEntry → ℕ → Bool
within l at = leb l.start at && leb at l.end

unfoldable pub lives : List LifeEntry → ℕ → Bool
lives [] at = false
lives (l ∷ ls) at = if within l at then true else if ltb at l.start then false else lives ls at

abbrev point : ℕ → LifeEntry
point s = record { start = s; end = s }

-- The end of `setAlive`: no range ends at or just before `s`.
unfoldable pub extend_or_insert : ℕ → LifeEntry → List LifeEntry → List LifeEntry × Bool
extend_or_insert s found rest =
    if found.start - 1 == s
    then (record found { start = found.start - 1 } ∷ rest, true)
    else (point s ∷ found ∷ rest, true)

-- `setAlive` where `before` starts at or before `s` and `found` starts after it.
unfoldable pub set_between : ℕ → LifeEntry → LifeEntry → List LifeEntry → List LifeEntry × Bool
unfolding extend_or_insert
set_between s before found rest =
    if before.end + 1 == s && found.start - 1 == s
    then (record before { end = found.end } ∷ rest, true)
    else if before.end + 1 == s
    then (record before { end = before.end + 1 } ∷ found ∷ rest, true)
    else if leb s before.end
    then (before ∷ found ∷ rest, false)
    else let r = extend_or_insert s found rest in (before ∷ r.0, r.1)

-- `setAlive` where the vector ends with `last`, which starts at or before `s`.
unfoldable pub set_after : ℕ → LifeEntry → List LifeEntry × Bool
set_after s last =
    if last.end + 1 == s
    then (record last { end = last.end + 1 } ∷ [], true)
    else if leb s last.end
    then (last ∷ [], false)
    else (last ∷ point s ∷ [], true)

-- The search of `setAlive` for the first range that starts after `s`, past the range `before`.
unfoldable pub set_past : ℕ → LifeEntry → List LifeEntry → List LifeEntry × Bool
unfolding set_between set_after
set_past s before [] = set_after s before
set_past s before (l ∷ ls) =
    let rest = set_past s l ls in
    if ltb s l.start then set_between s before l ls else (before ∷ rest.0, rest.1)

unfoldable pub set_alive : ℕ → List LifeEntry → List LifeEntry × Bool
unfolding set_past extend_or_insert
set_alive s [] = (point s ∷ [], true)
set_alive s (l ∷ ls) = if ltb s l.start then extend_or_insert s l ls else set_past s l ls

-- The two tests of `mergeLife` that let `entry` take in a range that touches it.
unfoldable pub widen : LifeEntry → LifeEntry → LifeEntry
widen other entry =
    let e =
      if ltb other.start entry.start && leb entry.start (other.end + 1)
      then record entry { start = other.start }
      else entry in
    if ltb e.end other.end && leb other.start (e.end + 1) then record e { end = other.end } else e

-- `mergeLife` at one range `other` of the other value. The cursor stands at `entry`, which has
-- been widened, with the ranges `rest` behind it; `next` goes on with the other value's next
-- range from the cursor that it is given.
module _ (other : LifeEntry) (next : LifeEntry → List LifeEntry → List LifeEntry) where
  unfoldable pub settle : LifeEntry → List LifeEntry → List LifeEntry
  unfolding widen
  settle entry [] = if ltb entry.end other.start then entry ∷ next other [] else next entry []
  settle entry (l ∷ ls) =
      let joined =
        settle (if ltb entry.end l.end then record entry { end = l.end } else entry) ls in
      let moved = settle (widen other l) ls in
      if leb l.start (entry.end + 1)
      then joined
      else if ltb entry.end other.start
      then entry ∷ (if ltb (other.end + 1) l.start then other ∷ next l ls else moved)
      else next entry (l ∷ ls)

  unfoldable pub visit : LifeEntry → List LifeEntry → List LifeEntry
  unfolding settle widen
  visit entry rest =
      if ltb (other.end + 1) entry.start
      then other ∷ next entry rest
      else settle (widen other entry) rest

unfoldable pub merge_from : List LifeEntry → LifeEntry → List LifeEntry → List LifeEntry
unfolding visit
merge_from [] entry rest = entry ∷ rest
merge_from (other ∷ others) entry rest = visit other (merge_from others) entry rest

-- `mergeLife`; it returns true always.
unfoldable pub merge_life : List LifeEntry → List LifeEntry → List LifeEntry
unfolding merge_from
merge_life mine [] = mine
merge_life [] others = others
merge_life (m ∷ mine) (o ∷ others) = merge_from (o ∷ others) m mine

-- The test of one pair of ranges in `ir_values_overlap`.
abbrev pub clash : LifeEntry → LifeEntry → Bool
clash a b = ltb a.start b.end && ltb b.start a.end

-- The loop of `ir_values_overlap`, at the ranges that `la` and `lb` point to.
unfoldable pub overlap_from : LifeEntry → List LifeEntry → LifeEntry → List LifeEntry → Bool
overlap_from la [] lb [] = clash la lb
overlap_from la (a ∷ as') lb [] =
    let forward = overlap_from a as' lb [] in
    if clash la lb then true else if ltb la.start lb.start then forward else false
overlap_from la [] lb (b ∷ bs) =
    let forward = overlap_from la [] b bs in
    if clash la lb then true else if ltb la.start lb.start then false else forward
overlap_from la (a ∷ as') lb (b ∷ bs) =
    let forward_a = overlap_from a as' lb (b ∷ bs) in
    let forward_b = overlap_from la (a ∷ as') b bs in
    if clash la lb then true else if ltb la.start lb.start then forward_a else forward_b

unfoldable pub values_overlap : List LifeEntry → List LifeEntry → Bool
unfolding overlap_from
values_overlap [] b = false
values_overlap (la ∷ a) [] = false
values_overlap (la ∷ a) (lb ∷ b) = overlap_from la a lb b
