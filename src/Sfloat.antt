-- ===== src/Sfloat.antt =====
-- The software float of fold.cpp, `sfloat_t`: 32 bits, with exceptions. An `int16_t` exponent is the
-- number of its 16 bits, a mask of the lowest bits is a remainder, and `|` with one bit sets it.
pub mod Arith
pub mod Rounding
pub mod Normalize
pub mod Shift
pub mod Product
pub mod Subnormal
mod Tests
use Prim.Native.Nat.{bit_or}
use gmqcc.Prelude.{
  ℕ, zero, suc, ◌+◌, ◌-◌, ◌*◌, ◌/◌, ◌%◌, ◌^◌, Bool, true, false, not, ◌&&◌, ◌||◌, ltb, leb, ◌==◌,
  if◌then◌else◌,
}

pub data RoundingMode : Type 0 where
  nearest_even down up to_zero : RoundingMode

pub data Tininess : Type 0 where
  tiny_after tiny_before : Tininess

pub record State : Type 0 where
  pub roundingmode : RoundingMode
  pub exceptionflags : ℕ
  pub tiny : Tininess

abbrev pub invalid : ℕ
invalid = 1

abbrev pub divbyzero : ℕ
divbyzero = 4

abbrev pub overflow : ℕ
overflow = 8

abbrev pub underflow : ℕ
underflow = 16

abbrev pub inexact : ℕ
inexact = 32

-- SFLOAT_RAISE
abbrev pub raise : ℕ → State → State
raise flags s = record s { exceptionflags = bit_or s.exceptionflags flags }

abbrev pub raise_if : Bool → ℕ → State → State
raise_if b flags s = if b then raise flags s else s

abbrev pub is_nearest_even : RoundingMode → Bool
is_nearest_even nearest_even = true
is_nearest_even down = false
is_nearest_even up = false
is_nearest_even to_zero = false

abbrev pub is_down : RoundingMode → Bool
is_down nearest_even = false
is_down down = true
is_down up = false
is_down to_zero = false

abbrev pub is_before : Tininess → Bool
is_before tiny_after = false
is_before tiny_before = true

-- Sets the bit `k`, or clears the lowest one.
abbrev pub with_bit : ℕ → ℕ → ℕ
with_bit k x = if x / 2 ^ k % 2 == 0 then x + 2 ^ k else x

abbrev pub set_low : ℕ → ℕ
set_low x = x / 2 * 2 + 1

abbrev pub clear_low : ℕ → ℕ
clear_low x = x / 2 * 2

-- Whether the bits of an `int16_t` or an `int32_t` are those of a negative number.
abbrev pub negative_16 : ℕ → Bool
negative_16 e = leb (2 ^ 15) e

abbrev pub negative_32 : ℕ → Bool
negative_32 w = leb (2 ^ 31) w

-- An `int16_t` less a number.
abbrev pub sub_16 : ℕ → ℕ → ℕ
sub_16 e k = (e + 2 ^ 16 - k) % 2 ^ 16

-- A `uint32_t` less another.
abbrev pub sub_32 : ℕ → ℕ → ℕ
sub_32 a b = (a + 2 ^ 32 - b) % 2 ^ 32

abbrev pub nan : ℕ
nan = 0xFFFF_FFFF

-- SFLOAT_ISNAN and SFLOAT_ISSNAN
unfoldable pub isnan : ℕ → Bool
isnan a = ltb 0xFF00_0000 (a * 2 % 2 ^ 32)

unfoldable pub issnan : ℕ → Bool
issnan a = a / 2 ^ 22 % 2 ^ 9 == 0x1FE && not (a % 2 ^ 22 == 0)

-- SFLOAT_EXTRACT_FRAC, SFLOAT_EXTRACT_EXP and SFLOAT_EXTRACT_SIGN
abbrev pub extract_frac : ℕ → ℕ
extract_frac x = x % 2 ^ 23

abbrev pub extract_exp : ℕ → ℕ
extract_exp x = x / 2 ^ 23 % 2 ^ 8

abbrev pub extract_sign : ℕ → Bool
extract_sign x = leb (2 ^ 31) x

-- SFLOAT_SHIFT for a word of `size` bits and a count that is not negative.
unfoldable pub shift : ℕ → ℕ → ℕ → ℕ
shift size a count =
    if count == 0
    then 1
    else if ltb count size
    then (if a * 2 ^ (size - count) % 2 ^ size == 0 then a / 2 ^ count else set_low (a / 2 ^ count))
    else if a == 0
    then 0
    else 1

-- SFLOAT_PACK. The shift drops what the sign of an `int16_t` adds above its 16 bits.
unfoldable pub pack : Bool → ℕ → ℕ → ℕ
pack sign exp sig = ((if sign then 2 ^ 31 else 0) + exp * 2 ^ 23 % 2 ^ 32 + sig) % 2 ^ 32

-- The leading zero bits of a word of `n` bits; the builtin is not called for 0.
unfoldable pub clz_from : ℕ → ℕ → ℕ
clz_from zero x = 0
clz_from (suc n) x = let rest = clz_from n x in if leb (2 ^ n) x then 0 else suc rest

unfoldable pub clz : ℕ → ℕ
unfolding clz_from
clz x = clz_from 32 x

unfoldable pub propagate_nan : State → ℕ → ℕ → State × ℕ
unfolding isnan issnan
propagate_nan state a b =
    let a' = with_bit 22 a in
    let b' = with_bit 22 b in
    (
      raise_if (issnan a || issnan b) invalid state,
      if isnan a then (if issnan a && isnan b then b' else a') else b',
    )

unfoldable pub increment_of : RoundingMode → Bool → ℕ
increment_of nearest_even sign = 0x40
increment_of to_zero sign = 0
increment_of down sign = if sign then 0x7F else 0
increment_of up sign = if sign then 0 else 0x7F

-- The end of `SFLOAT_PACK_round`, from the test of `bits` on.
unfoldable pub pack_rounded : State → Bool → ℕ → ℕ → State × ℕ
unfolding pack increment_of
pack_rounded state sign exp sig =
    let increment = increment_of state.roundingmode sign in
    let bits = sig % 2 ^ 7 in
    let rounded = (sig + increment) % 2 ^ 32 / 2 ^ 7 in
    let sig' =
      if bits == 0x40 && is_nearest_even state.roundingmode then clear_low rounded else rounded in
    (raise_if (not (bits == 0)) inexact state, pack sign (if sig' == 0 then 0 else exp) sig')

unfoldable pub pack_overflow : State → Bool → State × ℕ
unfolding pack increment_of
pack_overflow state sign =
    let z = pack sign 0xFF 0 in
    (
      raise (bit_or overflow inexact) state,
      if increment_of state.roundingmode sign == 0 then (z + 2 ^ 32 - 1) % 2 ^ 32 else z,
    )

-- A negative exponent.
unfoldable pub pack_tiny : State → Bool → ℕ → ℕ → State × ℕ
unfolding pack_rounded shift increment_of
pack_tiny state sign exp sig =
    let tiny =
      is_before state.tiny
      || ltb exp (2 ^ 16 - 1)
      || ltb ((sig + increment_of state.roundingmode sign) % 2 ^ 32) 0x8000_0000 in
    let sig' = shift 32 sig (2 ^ 16 - exp) in
    pack_rounded (raise_if (tiny && not (sig' % 2 ^ 7 == 0)) underflow state) sign 0 sig'

unfoldable pub pack_round : State → Bool → ℕ → ℕ → State × ℕ
unfolding pack_overflow pack_tiny pack_rounded
pack_round state sign exp sig =
    let increment = increment_of state.roundingmode sign in
    if leb 0xFD exp
    then (if not (negative_16 exp) && ltb 0xFD exp
          || exp == 0xFD && negative_32 ((sig + increment) % 2 ^ 32)
        then pack_overflow state sign
        else if negative_16 exp
        then pack_tiny state sign exp sig
        else pack_rounded state sign exp sig)
    else pack_rounded state sign exp sig

-- SFLOAT_PACK_normal
unfoldable pub pack_normal : State → Bool → ℕ → ℕ → State × ℕ
unfolding clz pack_round
pack_normal state sign exp sig =
    let c = (clz sig + 255) % 256 in pack_round state sign (sub_16 exp c) (sig * 2 ^ c % 2 ^ 32)
