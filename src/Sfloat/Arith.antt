-- ===== src/Sfloat/Arith.antt =====
-- The operations of the software float: `sfloat_add`, `sfloat_sub`, `sfloat_mul`, `sfloat_div` and
-- `sfloat_neg` of fold.cpp. Each returns the new state and the result.
use gmqcc.Prelude.{
  ℕ, ◌+◌, ◌-◌, ◌*◌, ◌/◌, ◌%◌, ◌^◌, Bool, not, ◌&&◌, ◌||◌, ltb, leb, ◌==◌, if◌then◌else◌,
}
use gmqcc.Sfloat.{
  State, is_down, invalid, divbyzero, raise, with_bit, set_low, negative_32, sub_16, sub_32, nan,
  extract_frac, extract_exp, extract_sign, shift, pack, clz, propagate_nan, pack_round, pack_normal,
}

-- The end of `sfloat_add_impl`, from `sig_a |= 0x20000000` on.
unfoldable pub add_end : State → Bool → ℕ → ℕ → ℕ → State × ℕ
add_end state sign exp sig_a sig_b =
    let sig = with_bit 29 sig_a + sig_b in
    if negative_32 (sig * 2 % 2 ^ 32)
    then pack_round state sign exp sig
    else pack_round state sign (sub_16 exp 1) (sig * 2 % 2 ^ 32)

-- The operand with the smaller exponent `exp`, shifted by the distance `d` of the exponents.
unfoldable pub align : ℕ → ℕ → ℕ → ℕ → ℕ
align bit exp sig d = if exp == 0 then shift 32 sig (d - 1) else shift 32 (with_bit bit sig) d

unfoldable pub add_impl : State → ℕ → ℕ → Bool → State × ℕ
unfolding add_end align
add_impl state a b sign =
    let exp_a = extract_exp a in
    let exp_b = extract_exp b in
    let sig_a = extract_frac a * 2 ^ 6 in
    let sig_b = extract_frac b * 2 ^ 6 in
    if ltb exp_b exp_a
    then (if exp_a == 0xFF
        then (if sig_a == 0 then (state, a) else propagate_nan state a b)
        else add_end state sign exp_a sig_a (align 29 exp_b sig_b (exp_a - exp_b)))
    else if ltb exp_a exp_b
    then (if exp_b == 0xFF
        then (if sig_b == 0 then (state, pack sign 0xFF 0) else propagate_nan state a b)
        else add_end state sign exp_b (align 29 exp_a sig_a (exp_b - exp_a)) sig_b)
    else if exp_a == 0xFF
    then (if sig_a == 0 && sig_b == 0 then (state, a) else propagate_nan state a b)
    else if exp_a == 0
    then (state, pack sign 0 ((sig_a + sig_b) / 2 ^ 6))
    else pack_round state sign exp_a (0x4000_0000 + sig_a + sig_b)

-- The labels `greater_a` and `greater_b` of `sfloat_sub_impl`, to the end.
unfoldable pub sub_end : State → Bool → ℕ → ℕ → State × ℕ
sub_end state sign exp sig = pack_normal state sign (sub_16 exp 1) sig

unfoldable pub sub_impl : State → ℕ → ℕ → Bool → State × ℕ
unfolding sub_end align
sub_impl state a b sign =
    let exp_a = extract_exp a in
    let exp_b = extract_exp b in
    let sig_a = extract_frac a * 2 ^ 7 in
    let sig_b = extract_frac b * 2 ^ 7 in
    let exp = if exp_a == 0 then 1 else exp_a in
    if ltb exp_b exp_a
    then (if exp_a == 0xFF
        then (if sig_a == 0 then (state, a) else propagate_nan state a b)
        else sub_end state sign exp_a
            (sub_32 (with_bit 30 sig_a) (align 30 exp_b sig_b (exp_a - exp_b))))
    else if ltb exp_a exp_b
    then (if exp_b == 0xFF
        then (if sig_b == 0 then (state, pack (not sign) 0xFF 0) else propagate_nan state a b)
        else sub_end state (not sign) exp_b
            (sub_32 (with_bit 30 sig_b) (align 30 exp_a sig_a (exp_b - exp_a))))
    else if exp_a == 0xFF
    then (if sig_a == 0 && sig_b == 0 then (raise invalid state, nan) else propagate_nan state a b)
    else if ltb sig_b sig_a
    then sub_end state sign exp (sub_32 sig_a sig_b)
    else if ltb sig_a sig_b
    then sub_end state (not sign) exp (sub_32 sig_b sig_a)
    else (state, pack (is_down state.roundingmode) 0 0)

abbrev pub same_sign : ℕ → ℕ → Bool
same_sign a b = if extract_sign a then extract_sign b else not (extract_sign b)

unfoldable pub sfloat_add : State → ℕ → ℕ → State × ℕ
unfolding add_impl sub_impl
sfloat_add state a b =
    if same_sign a b
    then add_impl state a b (extract_sign a)
    else sub_impl state a b (extract_sign a)

unfoldable pub sfloat_sub : State → ℕ → ℕ → State × ℕ
unfolding add_impl sub_impl
sfloat_sub state a b =
    if same_sign a b
    then sub_impl state a b (extract_sign a)
    else add_impl state a b (extract_sign a)

-- SFLOAT_SUBNORMALIZE where the exponent is 0. Every call stores the significand where it is read
-- from, so the exponent is that of the significand after the shift.
unfoldable pub shifted_sig : ℕ → ℕ
shifted_sig sig = sig * 2 ^ (clz sig - 8) % 2 ^ 32

unfoldable pub normalized_exp : ℕ → ℕ → ℕ
normalized_exp exp sig = if exp == 0 then sub_16 9 (clz (shifted_sig sig)) else exp

-- The significand that follows, with its leading one.
unfoldable pub normalized_sig : ℕ → ℕ → ℕ
normalized_sig exp sig = with_bit 23 (if exp == 0 then shifted_sig sig else sig)

-- The end of `sfloat_mul`, on normalized operands.
unfoldable pub mul_end : State → Bool → ℕ → ℕ → ℕ → State × ℕ
mul_end state sign exp sig_a sig_b =
    let product = sig_a * 2 ^ 7 % 2 ^ 32 * (sig_b * 2 ^ 8 % 2 ^ 32) % 2 ^ 64 in
    let sig = shift 64 product 32 % 2 ^ 32 in
    if negative_32 (sig * 2 % 2 ^ 32)
    then pack_round state sign exp sig
    else pack_round state sign (sub_16 exp 1) (sig * 2 % 2 ^ 32)

unfoldable pub sfloat_mul : State → ℕ → ℕ → State × ℕ
unfolding mul_end normalized_exp normalized_sig
sfloat_mul state a b =
    let exp_a = extract_exp a in
    let exp_b = extract_exp b in
    let sig_a = extract_frac a in
    let sig_b = extract_frac b in
    let sign = not (same_sign a b) in
    if exp_a == 0xFF
    then (if not (sig_a == 0) || exp_b == 0xFF && not (sig_b == 0)
        then propagate_nan state a b
        else if exp_b == 0 && sig_b == 0
        then (raise invalid state, nan)
        else (state, pack sign 0xFF 0))
    else if exp_b == 0xFF
    then (if not (sig_b == 0)
        then propagate_nan state a b
        else if exp_a == 0 && sig_a == 0
        then (raise invalid state, nan)
        else (state, pack sign 0xFF 0))
    else if exp_a == 0 && sig_a == 0
    then (state, pack sign 0 0)
    else if exp_b == 0 && sig_b == 0
    then (state, pack sign 0 0)
    else mul_end state sign (sub_16 (normalized_exp exp_a sig_a + normalized_exp exp_b sig_b) 0x7F)
        (normalized_sig exp_a sig_a) (normalized_sig exp_b sig_b)

-- The end of `sfloat_div`, on normalized operands.
unfoldable pub div_end : State → Bool → ℕ → ℕ → ℕ → State × ℕ
div_end state sign exp sig_a sig_b =
    let a = sig_a * 2 ^ 7 % 2 ^ 32 in
    let b = sig_b * 2 ^ 8 % 2 ^ 32 in
    let halved = leb b ((a + a) % 2 ^ 32) in
    let a' = if halved then a / 2 else a in
    let exp' = if halved then (exp + 1) % 2 ^ 16 else exp in
    let sig = a' * 2 ^ 32 / b % 2 ^ 32 in
    let exact = b * sig % 2 ^ 64 == a' * 2 ^ 32 in
    pack_round state sign exp' (if sig % 2 ^ 6 == 0 && not exact then set_low sig else sig)

unfoldable pub sfloat_div : State → ℕ → ℕ → State × ℕ
unfolding div_end normalized_exp normalized_sig
sfloat_div state a b =
    let exp_a = extract_exp a in
    let exp_b = extract_exp b in
    let sig_a = extract_frac a in
    let sig_b = extract_frac b in
    let sign = not (same_sign a b) in
    if exp_a == 0xFF
    then (if not (sig_a == 0)
        then propagate_nan state a b
        else if exp_b == 0xFF
        then (if not (sig_b == 0) then propagate_nan state a b else (raise invalid state, nan))
        else (state, pack sign 0xFF 0))
    else if exp_b == 0xFF
    then (if sig_b == 0 then (state, pack sign 0 0) else propagate_nan state a b)
    else if exp_b == 0 && sig_b == 0
    then (if exp_a == 0 && sig_a == 0
        then (raise invalid state, nan)
        else (raise divbyzero state, pack sign 0xFF 0))
    else if exp_a == 0 && sig_a == 0
    then (state, pack sign 0 0)
    else div_end state sign
        ((normalized_exp exp_a sig_a + 2 ^ 16 - normalized_exp exp_b sig_b + 0x7D) % 2 ^ 16)
        (normalized_sig exp_a sig_a) (normalized_sig exp_b sig_b)

-- The product with the bits of -1.0f.
unfoldable pub sfloat_neg : State → ℕ → State × ℕ
sfloat_neg state a = sfloat_mul state a 0xBF80_0000
