-- ===== src/Sfloat/Shift.antt =====
-- The right shift that keeps a trace of the bits that it drops.
use native.Mathlib.Nat.{
  zero-mul, pow-le-pow_right, div-eq_of_lt, suc-mul, mod-eq_of_lt, mod-lt, mod-add-div,
  add-mul-mod_self_left, mul-lt-mul_of_pos_right,
}
use gmqcc.Prelude.{
  ℕ, zero, suc, ◌+◌, ◌-◌, ◌*◌, ◌/◌, ◌%◌, ◌^◌, ◌<◌, ◌≡◌, refl, ap, true, false, arith, ltb, ◌==◌,
  if◌then◌else◌, lt→ltb, ==_iff, all_below, all_below-lt, dec_lt,
}
use gmqcc.Sfloat.{set_low, shift}

-- The quotient, with the lowest bit set if the division has a remainder.
abbrev pub jammed : ℕ → ℕ → ℕ
jammed a d = if a % d == 0 then a / d else set_low (a / d)

mul-mod-mul : (a m k : ℕ) → 0 < m → 0 < k → a * k % (m * k) ≡ a % m * k
mul-mod-mul a m k p q =
    let parts : a * k ≡ a % m * k + m * k * (a / m) =
      grind (arith, ap (λ (t : ℕ). t * k) (mod-add-div a m)) in
    rw (parts, add-mul-mod_self_left) (mod-eq_of_lt (mul-lt-mul_of_pos_right (mod-lt a p) q))

powers : all_below 33 (λ c. 2 ^ c * 2 ^ (32 - c) == 2 ^ 32) ≡ true
unfolding all_below
powers = refl

pow_split : (c : ℕ) → c < 33 → 2 ^ c * 2 ^ (32 - c) ≡ 2 ^ 32
pow_split c h = (==_iff _ _).0 (all_below-lt 33 (λ c. 2 ^ c * 2 ^ (32 - c) == 2 ^ 32) c powers h)

pow_pos : (c : ℕ) → 0 < 2 ^ c
pow_pos c = pow-le-pow_right {n = 2} (omega arith) {i = 0} {j = c} (omega arith)

-- The bits that are shifted out are those of the remainder.
dropped : (a c : ℕ) → c < 33 → a * 2 ^ (32 - c) % 2 ^ 32 ≡ a % 2 ^ c * 2 ^ (32 - c)
dropped a c h =
    rw (← pow_split c h) (mul-mod-mul a (2 ^ c) (2 ^ (32 - c)) (pow_pos c) (pow_pos (32 - c)))

mul-eq-zero : (x k : ℕ) → 0 < k → (x * k == 0) ≡ (x == 0)
mul-eq-zero zero k p = rw zero-mul
mul-eq-zero (suc x) k p = let e = suc-mul x k in ground (arith, e)

dropped-eq-zero : (a c : ℕ) → c < 33 → (a * 2 ^ (32 - c) % 2 ^ 32 == 0) ≡ (a % 2 ^ c == 0)
dropped-eq-zero a c h =
    rw (dropped a c h) (mul-eq-zero (a % 2 ^ c) (2 ^ (32 - c)) (pow_pos (32 - c)))

-- SFLOAT_SHIFT of a word by any count but 0 is the division by the power of two, with the lowest bit
-- set if there is a remainder.
pub shift-eq-jammed :
    (a count : ℕ) → a < 2 ^ 32 → 0 < count → shift 32 a count ≡ jammed a (2 ^ count)
unfolding shift
shift-eq-jammed a count h p = elim (dec_lt count 32) [
  | yes within ↦
      let some_count : (count == 0) ≡ false = ground arith in
      rw (some_count, lt→ltb count 32 within, dropped-eq-zero a count (omega arith))
  | no beyond ↦
      let some_count : (count == 0) ≡ false = ground arith in
      let outside : ltb count 32 ≡ false = ground arith in
      let small : a < 2 ^ count =
        omega (arith, pow-le-pow_right {n = 2} (omega arith) {i = 32} {j = count} (omega arith)) in
      let quotient : a / 2 ^ count ≡ 0 = div-eq_of_lt small in
      rw (some_count, outside, mod-eq_of_lt small, quotient)
]
