-- ===== src/Vm/Words.antt =====
-- Words of 32 and 16 bits read as signed, and memory as a list of words. A function that reads or
-- writes outside of a vector has no defined result, which is `none`.
pub mod Blocks
use gmqcc.Prelude.{
  ℕ, zero, suc, ◌+◌, ◌-◌, ◌^◌, Bool, true, false, not, ◌&&◌, List, [], ◌∷◌, Option, none, some, ltb,
  leb, if◌then◌else◌, length, get_elem?, set,
}

-- The sign of an `int32_t`.
abbrev pub is_negative : ℕ → Bool
is_negative w = leb (2 ^ 31) w

-- `w >= (qcint_t)n` for a size `n` below 2 ^ 31.
abbrev pub at_least : ℕ → ℕ → Bool
at_least w n = not (is_negative w) && leb n w

infixl 5 ◌>>=◌
abbrev pub ◌>>=◌ : {A B : Type 0} → Option A → (A → Option B) → Option B
none >>= k = none
some x >>= k = k x

abbrev pub guard : Bool → Option (Unit {0})
guard true = some tt
guard false = none

infixl 5 ◌>>◌
abbrev pub ◌>>◌ : {B : Type 0} → Option (Unit {0}) → Option B → Option B
m >> k = m >>= λ _. k

-- A write of one word.
unfoldable pub write? : List ℕ → ℕ → ℕ → Option (List ℕ)
write? m i v = if ltb i (length m) then some (set m i v) else none

-- The words of `m` from `i` on, `n` of them.
unfoldable pub read_block : ℕ → List ℕ → ℕ → Option (List ℕ)
read_block zero m i = some []
read_block (suc n) m i = do w ← get_elem? m i; ws ← read_block n m (suc i); some (w ∷ ws)

-- Writes words one behind another, from `i` on.
unfoldable pub write_block : List ℕ → ℕ → List ℕ → Option (List ℕ)
unfolding write?
write_block m i [] = some m
write_block m i (w ∷ ws) = do m' ← write? m i w; write_block m' (suc i) ws
