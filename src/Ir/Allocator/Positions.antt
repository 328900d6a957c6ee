-- ===== src/Ir/Allocator/Positions.antt =====
-- The positions of the slots of one allocator.
use gmqcc.Prelude.{
  ℕ, zero, suc, ◌+◌, ◌≤◌, ◌<◌, ◌≡◌, ◌≢◌, List, [], ◌∷◌, arith, get_elem?, get_or, some, ◌⊎◌, inl,
  inr, dec_lt,
}
use gmqcc.Ir.Allocator.{Slot, positions_from, slot_positions, total_size}

-- The position of a slot lies behind the start and leaves room in the total.
position_bounds :
    (pos : ℕ) (ss : List Slot) (i : ℕ) (s : Slot)
    → get_elem? ss i ≡ some s
    → (pos ≤ get_or (positions_from pos ss) i 0)
      × (get_or (positions_from pos ss) i 0 + s.size ≤ pos + total_size ss)
unfolding positions_from total_size
position_bounds pos [] i s e = absurd (ground arith)
position_bounds pos (t ∷ ss) zero s e = ground arith
position_bounds pos (t ∷ ss) (suc i) s e = omega (arith, position_bounds (pos + t.size) ss i s e)

position_order :
    (pos : ℕ) (ss : List Slot) (i j : ℕ) (s t : Slot)
    → get_elem? ss i ≡ some s
    → get_elem? ss j ≡ some t
    → i < j
    → get_or (positions_from pos ss) i 0 + s.size ≤ get_or (positions_from pos ss) j 0
unfolding positions_from
position_order pos [] i j s t e f p = absurd (ground arith)
position_order pos (u ∷ ss) zero zero s t e f p = absurd (omega arith)
position_order pos (u ∷ ss) zero (suc j) s t e f p =
    ground (arith, position_bounds (pos + u.size) ss j t f)
position_order pos (u ∷ ss) (suc i) zero s t e f p = absurd (omega arith)
position_order pos (u ∷ ss) (suc i) (suc j) s t e f p =
    position_order (pos + u.size) ss i j s t e f (omega arith)

-- The slot of index `i` stands in the pool's storage, and two slots do not overlap in it.
pub slot_position-le :
    (ss : List Slot) (i : ℕ) (s : Slot)
    → get_elem? ss i ≡ some s
    → get_or (slot_positions ss) i 0 + s.size ≤ total_size ss
unfolding slot_positions
slot_position-le [] i s e = absurd (ground arith)
slot_position-le (t ∷ ss) i s e = omega (arith, position_bounds 0 (t ∷ ss) i s e)

pub slot_positions_apart :
    (ss : List Slot) (i j : ℕ) (s t : Slot)
    → get_elem? ss i ≡ some s
    → get_elem? ss j ≡ some t
    → i ≢ j
    → (get_or (slot_positions ss) i 0 + s.size ≤ get_or (slot_positions ss) j 0)
      ⊎ (get_or (slot_positions ss) j 0 + t.size ≤ get_or (slot_positions ss) i 0)
unfolding slot_positions
slot_positions_apart [] i j s t e f n = absurd (ground arith)
slot_positions_apart (u ∷ ss) i j s t e f n = elim (dec_lt i j) [
  | yes p ↦ inl (position_order 0 (u ∷ ss) i j s t e f p)
  | no p ↦ inr (position_order 0 (u ∷ ss) j i t s f e (omega arith))
]
