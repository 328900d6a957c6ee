-- ===== src/Sfloat/Normalize.antt =====
-- Products with subnormal numbers.
use native.Mathlib.Nat.{mul_assoc, pow-suc}
use gmqcc.Prelude.{
  ℕ, zero, suc, ◌+◌, ◌-◌, ◌*◌, ◌/◌, ◌%◌, ◌^◌, ◌<◌, ◌≤◌, ◌≡◌, refl, ◌∙◌, Bool, true, false, not, inl,
  inr, arith, leb, ◌==◌, Bool-cases,
}
use gmqcc.Sfloat.{
  RoundingMode, nearest_even, down, up, to_zero, State, negative_32, extract_exp, extract_frac,
  isnan, clz_from, clz, shift, increment_of, pack, pack_rounded, pack_round,
}
use gmqcc.Sfloat.Arith.{
  same_sign, shifted_sig, normalized_exp, normalized_sig, mul_end, sfloat_mul, sfloat_neg,
}
use gmqcc.Sfloat.Product.{clz-sub, clz-lt, choose, choose-sfloat_mul, sfloat_mul_comm}

-- Without its leading zeros, a word has its highest bit.
clz_from-le : (n x : ℕ) → 0 < x → x < 2 ^ suc n → 2 ^ n ≤ x * 2 ^ clz_from (suc n) x
unfolding clz_from
clz_from-le zero x p h = ground arith
clz_from-le (suc n) x p h = elim (Bool-cases (leb (2 ^ suc n) x)) [
  | inl e ↦ rw e (ground arith)
  | inr e ↦
      let ih = clz_from-le n x p (ground arith) in
      let double = pow-suc 2 (clz_from (suc n) x) in
      let double' = pow-suc 2 n in rw (e, double, double', ← mul_assoc) (omega (arith, ih))
]

shifted_sig-value : (sig : ℕ) → sig < 2 ^ 23 → shifted_sig sig ≡ sig * 2 ^ (clz sig - 8)
unfolding shifted_sig
shifted_sig-value sig h = let l = clz-lt sig h in omega (arith, l)

shifted_sig-le : (sig : ℕ) → 0 < sig → sig < 2 ^ 23 → 2 ^ 23 ≤ shifted_sig sig
shifted_sig-le sig p h =
    rw (shifted_sig-value sig h, clz-sub sig (omega arith)) (clz_from-le 23 sig p (omega arith))

shifted_sig-lt : (sig : ℕ) → sig < 2 ^ 23 → shifted_sig sig < 2 ^ 24
shifted_sig-lt sig h = rw (shifted_sig-value sig h) (clz-lt sig h)

clz-normal : (x : ℕ) → 2 ^ 23 ≤ x → x < 2 ^ 24 → clz x ≡ 8
unfolding clz clz_from
clz-normal x p h = ground arith

-- The exponent of every subnormal number comes to 1.
normalized_exp-subnormal : (sig : ℕ) → 0 < sig → sig < 2 ^ 23 → normalized_exp 0 sig ≡ 1
unfolding normalized_exp
normalized_exp-subnormal sig p h =
    rw (clz-normal (shifted_sig sig) (shifted_sig-le sig p h) (shifted_sig-lt sig h))

normalized_sig-subnormal :
    (sig : ℕ) → 0 < sig → sig < 2 ^ 23 → normalized_sig 0 sig ≡ shifted_sig sig
unfolding normalized_sig
normalized_sig-subnormal sig p h =
    let low = shifted_sig-le sig p h in let high = shifted_sig-lt sig h in ground (arith, low, high)

increment_of-le : (mode : RoundingMode) (sign : Bool) → increment_of mode sign ≤ 0x7F
unfolding increment_of
increment_of-le nearest_even sign = omega arith
increment_of-le to_zero sign = omega arith
increment_of-le down sign = ground arith
increment_of-le up sign = ground arith

-- A significand without bits below its last place is packed as it is, in every mode.
pack_round-exact :
    (state : State) (sign : Bool) (n : ℕ)
    → 0 < n
    → n < 2 ^ 24
    → pack_round state sign 0 (n * 128) ≡ (state, pack sign 0 n)
unfolding pack_round pack_rounded
pack_round-exact state sign n p h =
    let bits : n * 128 % 2 ^ 7 ≡ 0 = omega arith in
    let low = increment_of-le state.roundingmode sign in
    let rounded : (n * 128 + increment_of state.roundingmode sign) % 2 ^ 32 / 2 ^ 7 ≡ n =
      omega (arith, low) in
    let some_sig : (n == 0) ≡ false = ground arith in rw (bits, rounded, some_sig)

mul_end-one :
    (state : State) (sign : Bool) (n : ℕ)
    → 2 ^ 23 ≤ n
    → n < 2 ^ 24
    → mul_end state sign 1 (2 ^ 23) n ≡ (state, pack sign 0 n)
unfolding mul_end shift
mul_end-one state sign n p h =
    let product : 2 ^ 23 * 2 ^ 7 % 2 ^ 32 * (n * 2 ^ 8 % 2 ^ 32) % 2 ^ 64 ≡ n * 2 ^ 38 =
      omega arith in
    let dropped : (n * 2 ^ 38 * 2 ^ (64 - 32) % 2 ^ 64 == 0) ≡ true = ground arith in
    let sig : n * 2 ^ 38 / 2 ^ 32 % 2 ^ 32 ≡ n * 64 = omega arith in
    let small : negative_32 (n * 64 * 2 % 2 ^ 32) ≡ false = ground arith in
    let twice : n * 64 * 2 % 2 ^ 32 ≡ n * 128 = omega arith in
    rw (product, dropped, sig, small, twice) (pack_round-exact state sign n (omega arith) h)

-- The product with a positive or negative 1, whose bits are `one`.
mul_subnormal :
    (state : State) (one b : ℕ)
    → extract_exp one ≡ 0x7F
    → extract_frac one ≡ 0
    → 0 < b
    → b < 2 ^ 23
    → sfloat_mul state one b ≡ (state, pack (not (same_sign one b)) 0 (shifted_sig b))
unfolding choose normalized_exp normalized_sig
mul_subnormal state one b e f p h =
    let exp_b : extract_exp b ≡ 0 = omega arith in
    let frac_b : extract_frac b ≡ b = omega arith in
    let some_frac : (b == 0) ≡ false = ground arith in
    let exp = normalized_exp-subnormal b p h in
    let sig = normalized_sig-subnormal b p h in
    choose-sfloat_mul state one b
    ∙ rw (e, f, exp_b, frac_b, some_frac, exp, sig)
        (mul_end-one state (not (same_sign one b)) (shifted_sig b) (shifted_sig-le b p h)
          (shifted_sig-lt b h))

no_nan : (b : ℕ) → b < 2 ^ 23 → isnan b ≡ false
unfolding isnan
no_nan b h = ground arith

one_no_nan : isnan 0xBF80_0000 ≡ false
unfolding isnan
one_no_nan = refl

-- For a positive subnormal number `b`, `sfloat_mul` of 1 and `b` is not `b` but its significand
-- shifted until it has 24 bits, and `sfloat_neg` of `b` is the negative of that number, without an
-- exception, in every rounding mode.
pub sfloat_mul_subnormal :
    (state : State) (b : ℕ)
    → 0 < b
    → b < 2 ^ 23
    → (n : ℕ) × (n ≡ b * 2 ^ (clz b - 8))
      × (2 ^ 23 ≤ n)
      × (n < 2 ^ 24)
      × (sfloat_mul state 0x3F80_0000 b ≡ (state, n))
      × (sfloat_neg state b ≡ (state, 2 ^ 31 + n))
unfolding sfloat_neg pack
sfloat_mul_subnormal state b p h =
    let n = shifted_sig b in
    let low = shifted_sig-le b p h in
    let high = shifted_sig-lt b h in
    let same : same_sign 0x3F80_0000 b ≡ true = ground arith in
    let other : same_sign 0xBF80_0000 b ≡ false = ground arith in
    let plus : (0 + n) % 2 ^ 32 ≡ n = omega (arith, high) in
    let minus : (2 ^ 31 + n) % 2 ^ 32 ≡ 2 ^ 31 + n = omega (arith, high) in
    (
      n,
      shifted_sig-value b h,
      low,
      high,
      mul_subnormal state 0x3F80_0000 b refl refl p h ∙ rw (same, plus),
      sfloat_mul_comm state b 0xBF80_0000 (omega arith) (omega arith) (no_nan b h) one_no_nan
          ∙ mul_subnormal state 0xBF80_0000 b refl refl p h
          ∙ rw (other, minus),
    )
