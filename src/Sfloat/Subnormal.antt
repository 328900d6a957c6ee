-- ===== src/Sfloat/Subnormal.antt =====
-- Sums with subnormal numbers.
use gmqcc.Prelude.{ℕ, ◌+◌, ◌*◌, ◌/◌, ◌%◌, ◌^◌, ◌<◌, ◌≤◌, ◌≡◌, refl, false, arith, leb, ◌==◌}
use gmqcc.Sfloat.{
  State, nearest_even, inexact, raise, with_bit, negative_32, extract_exp, extract_frac, shift,
  increment_of, pack, pack_rounded, pack_round,
}
use gmqcc.Sfloat.Arith.{align, add_end, add_impl, sfloat_add}

-- An operand whose exponent is 0, next to one with the exponent 1, comes to 1 whatever it is.
align_subnormal : (bit sig : ℕ) → align bit 0 sig 1 ≡ 1
unfolding align shift
align_subnormal bit sig = refl

packed :
    (state : State) (a : ℕ)
    → state.roundingmode ≡ nearest_even
    → 2 ^ 23 ≤ a
    → a < 2 ^ 24
    → pack_round state false 0 (128 * a + 2) ≡ (raise inexact state, a)
unfolding pack_round pack_rounded pack increment_of
packed state a e p q =
    let bits : (128 * a + 2) % 2 ^ 7 ≡ 2 = omega arith in
    let rounded : (128 * a + 2 + 0x40) % 2 ^ 32 / 2 ^ 7 ≡ a = omega arith in
    let some_sig : (a == 0) ≡ false = ground arith in
    let whole : (0 + a) % 2 ^ 32 ≡ a = omega arith in
    rw (pack_rounded, e, increment_of, bits, rounded, pack, some_sig, whole)

add_end_lost :
    (state : State) (a : ℕ)
    → state.roundingmode ≡ nearest_even
    → 2 ^ 23 ≤ a
    → a < 2 ^ 24
    → add_end state false 1 (extract_frac a * 2 ^ 6) 1 ≡ (raise inexact state, a)
unfolding add_end pack_round pack_rounded pack
add_end_lost state a e p q =
    let hidden : with_bit 29 (extract_frac a * 2 ^ 6) ≡ a * 2 ^ 6 = ground arith in
    let small : negative_32 ((a * 2 ^ 6 + 1) * 2 % 2 ^ 32) ≡ false = ground arith in
    let half : (a * 2 ^ 6 + 1) * 2 % 2 ^ 32 ≡ 128 * a + 2 = omega arith in
    rw (hidden, small, half) (packed state a e p q)

-- The sum of a number `a` with the exponent 1 and a subnormal number `b`, which are both positive,
-- is `a` with an inexact exception when the nearest number is rounded to, although `a + b` is the
-- exact sum: `b` is lost.
pub sfloat_add_subnormal :
    (state : State) (a b : ℕ)
    → state.roundingmode ≡ nearest_even
    → 2 ^ 23 ≤ a
    → a < 2 ^ 24
    → b < 2 ^ 23
    → sfloat_add state a b ≡ (raise inexact state, a)
unfolding sfloat_add add_impl
sfloat_add_subnormal state a b e p q s =
    let exp_a : extract_exp a ≡ 1 = omega arith in
    let exp_b : extract_exp b ≡ 0 = omega arith in
    let sign_a : leb (2 ^ 31) a ≡ false = ground arith in
    let sign_b : leb (2 ^ 31) b ≡ false = ground arith in
    rw (sign_a, sign_b, exp_a, exp_b, align_subnormal) (add_end_lost state a e p q)
