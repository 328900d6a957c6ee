-- ===== src/Sfloat/Rounding.antt =====
-- How a significand with seven bits below its last place is rounded.
use gmqcc.Prelude.{
  ℕ, ◌+◌, ◌*◌, ◌/◌, ◌%◌, ◌^◌, ◌<◌, ◌≤◌, ◌≡◌, Bool, true, false, not, ◌&&◌, arith, leb, ◌==◌,
  if◌then◌else◌,
}
use gmqcc.Sfloat.{
  RoundingMode, nearest_even, down, up, to_zero, State, inexact, raise_if, is_nearest_even, pack,
  increment_of, pack_rounded, pack_round,
}

-- `r` is the last whole number up to `sig / 128`, or the first from there on.
abbrev IsFloor : ℕ → ℕ → Type 0
IsFloor sig r = (128 * r ≤ sig) × (sig < 128 * r + 128)

abbrev IsCeiling : ℕ → ℕ → Type 0
IsCeiling sig r = (sig ≤ 128 * r) × (128 * r < sig + 128)

-- `r` is a nearest whole number to `sig / 128`, the even one if there are two.
abbrev IsNearest : ℕ → ℕ → Type 0
IsNearest sig r = (128 * r ≤ sig + 64) × (sig ≤ 128 * r + 64) × ((sig % 128 ≡ 64) → r % 2 ≡ 0)

-- What each mode promises of the rounded significand of a number with the sign.
abbrev pub IsRounded : RoundingMode → Bool → ℕ → ℕ → Type 0
IsRounded nearest_even sign sig r = IsNearest sig r
IsRounded to_zero sign sig r = IsFloor sig r
IsRounded down true sig r = IsCeiling sig r
IsRounded down false sig r = IsFloor sig r
IsRounded up true sig r = IsFloor sig r
IsRounded up false sig r = IsCeiling sig r

abbrev rounded : RoundingMode → Bool → ℕ → ℕ
rounded mode sign sig =
    let r = (sig + increment_of mode sign) % 2 ^ 32 / 2 ^ 7 in
    if sig % 2 ^ 7 == 0x40 && is_nearest_even mode then r / 2 * 2 else r

rounded-IsRounded :
    (mode : RoundingMode) (sign : Bool) (sig : ℕ)
    → sig < 2 ^ 31
    → IsRounded mode sign sig (rounded mode sign sig)
unfolding increment_of
rounded-IsRounded nearest_even sign sig h = ground arith
rounded-IsRounded to_zero sign sig h = ground arith
rounded-IsRounded down true sig h = ground arith
rounded-IsRounded down false sig h = ground arith
rounded-IsRounded up true sig h = ground arith
rounded-IsRounded up false sig h = ground arith

-- `SFLOAT_PACK_round` of an exponent from 0 to 0xFC and a significand below 2 ^ 31 packs the
-- significand as the mode rounds it, with the exponent 0 if that is 0, and raises the inexact
-- exception exactly if the seven lowest bits are not all 0.
pub pack_round-IsRounded :
    (state : State) (sign : Bool) (exp sig : ℕ)
    → exp < 0xFD
    → sig < 2 ^ 31
    → (r : ℕ) × IsRounded state.roundingmode sign sig r
      × (pack_round state sign exp sig ≡ (
        raise_if (not (sig % 128 == 0)) inexact state,
        pack sign (if r == 0 then 0 else exp) r,
      ))
unfolding pack_round pack_rounded
pack_round-IsRounded state sign exp sig h k =
    let low : leb 0xFD exp ≡ false = ground arith in
    (rounded state.roundingmode sign sig, rounded-IsRounded state.roundingmode sign sig k, rw low)
