-- ===== src/Ir/Life/Ranges.antt =====
-- The ranges of a value are sorted and leave a gap between one another, and an operation on such
-- ranges is an operation on the set of places that they hold.
use gmqcc.Prelude.{ℕ, ◌+◌, ◌≤◌, ◌<◌, ◌≡◌, refl, Bool, false, ◌||◌, List, [], ◌∷◌, arith}
use gmqcc.Ir.Life.{LifeEntry, within, lives}

-- Sorted ranges from `lo` on, each nonempty and no two of them adjacent.
abbrev pub IsLifeFrom : ℕ → List LifeEntry → Type 0
IsLifeFrom lo [] = Unit
IsLifeFrom lo (e ∷ es) = (lo ≤ e.start) × (e.start ≤ e.end) × IsLifeFrom (e.end + 2) es

-- The places that the ranges hold, whatever their order.
abbrev pub covers : List LifeEntry → ℕ → Bool
covers [] x = false
covers (e ∷ es) x = within e x || covers es x

pub covers-below :
    (lo : ℕ) (l : List LifeEntry) (x : ℕ) → IsLifeFrom lo l → x < lo → covers l x ≡ false
covers-below lo [] x h p = refl
covers-below lo (e ∷ es) x h p = ground (arith, covers-below (e.end + 2) es x)

pub lives-eq-covers :
    (lo : ℕ) (l : List LifeEntry) (x : ℕ) → IsLifeFrom lo l → lives l x ≡ covers l x
unfolding lives
lives-eq-covers lo [] x h = refl
lives-eq-covers lo (e ∷ es) x h =
    ground (arith, lives-eq-covers (e.end + 2) es x, covers-below (e.end + 2) es x)

pub IsLifeFrom-mono :
    (lo lo' : ℕ) (l : List LifeEntry) → IsLifeFrom lo l → lo' ≤ lo → IsLifeFrom lo' l
IsLifeFrom-mono lo lo' [] h p = tt
IsLifeFrom-mono lo lo' (e ∷ es) h p = (omega arith, h.1, h.2)
