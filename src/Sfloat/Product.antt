-- ===== src/Sfloat/Product.antt =====
-- The product of two numbers in either order.
use native.Mathlib.Nat.{mul_assoc, add_comm, pow-suc}
use gmqcc.Prelude.{
  ℕ, zero, suc, ◌+◌, ◌-◌, ◌*◌, ◌%◌, ◌^◌, ◌<◌, ◌≡◌, refl, sym, ◌∙◌, Bool, true, false, not, ◌&&◌,
  ◌||◌, inl, inr, arith, leb, ◌==◌, if◌then◌else◌, Bool-cases,
}
use gmqcc.Sfloat.{
  State, with_bit, sub_16, extract_frac, extract_exp, isnan, clz_from, clz, pack, raise, invalid,
  nan, propagate_nan,
}
use gmqcc.Sfloat.Arith.{same_sign, shifted_sig, normalized_exp, normalized_sig, mul_end, sfloat_mul}

-- The leading zeros can be shifted out.
pub clz_from-lt : (n x : ℕ) → x < 2 ^ n → x * 2 ^ clz_from n x < 2 ^ n
unfolding clz_from
clz_from-lt zero x h = omega arith
clz_from-lt (suc n) x h = elim (Bool-cases (leb (2 ^ n) x)) [
  | inl e ↦ rw e (omega (arith, h))
  | inr e ↦
      let ih = clz_from-lt n x (ground arith) in
      let double = pow-suc 2 (clz_from n x) in
      let double' = pow-suc 2 n in rw (e, double, double', ← mul_assoc) (omega (arith, ih))
]

-- The tests of `sfloat_mul`, on the two exponents and significands.
unfoldable pub choose :
    {A : Type 0} (inf_a inf_b zero_a zero_b low_a low_b : Bool) (n inv inf null m : A) → A
choose inf_a inf_b zero_a zero_b low_a low_b n inv inf null m =
    if inf_a
    then (if not zero_a || inf_b && not zero_b then n else if low_b && zero_b then inv else inf)
    else if inf_b
    then (if not zero_b then n else if low_a && zero_a then inv else inf)
    else if low_a && zero_a
    then null
    else if low_b && zero_b
    then null
    else m

choose_comm :
    {A : Type 0} (inf_a inf_b zero_a zero_b low_a low_b : Bool) (n n' inv inf null m : A)
    → (inf_a ≡ true → zero_a ≡ true)
    → (inf_b ≡ true → zero_b ≡ true)
    → (inf_a ≡ true → low_a ≡ false)
    → (inf_b ≡ true → low_b ≡ false)
    → choose inf_a inf_b zero_a zero_b low_a low_b n inv inf null m
      ≡ choose inf_b inf_a zero_b zero_a low_b low_a n' inv inf null m
unfolding choose
choose_comm inf_a inf_b zero_a zero_b low_a low_b n n' inv inf null m h k l o = ground arith

-- A wider word has one more leading zero.
clz_from-suc : (n x : ℕ) → x < 2 ^ n → clz_from (suc n) x ≡ suc (clz_from n x)
unfolding clz_from
clz_from-suc n x h = ground arith

pub clz-clz_from : (x : ℕ) → clz x ≡ clz_from 32 x
unfolding clz
clz-clz_from x = refl

pub clz-sub : (x : ℕ) → x < 2 ^ 24 → clz x - 8 ≡ clz_from 24 x
clz-sub x h =
    let e₀ = clz-clz_from x in
    let e₁ : clz_from 32 x ≡ suc (clz_from 31 x) = clz_from-suc 31 x (omega arith) in
    let e₂ : clz_from 31 x ≡ suc (clz_from 30 x) = clz_from-suc 30 x (omega arith) in
    let e₃ : clz_from 30 x ≡ suc (clz_from 29 x) = clz_from-suc 29 x (omega arith) in
    let e₄ : clz_from 29 x ≡ suc (clz_from 28 x) = clz_from-suc 28 x (omega arith) in
    let e₅ : clz_from 28 x ≡ suc (clz_from 27 x) = clz_from-suc 27 x (omega arith) in
    let e₆ : clz_from 27 x ≡ suc (clz_from 26 x) = clz_from-suc 26 x (omega arith) in
    let e₇ : clz_from 26 x ≡ suc (clz_from 25 x) = clz_from-suc 25 x (omega arith) in
    let e₈ : clz_from 25 x ≡ suc (clz_from 24 x) = clz_from-suc 24 x (omega arith) in omega arith

pub clz-lt : (x : ℕ) → x < 2 ^ 23 → x * 2 ^ (clz x - 8) < 2 ^ 24
clz-lt x h = rw (clz-sub x (omega arith)) (clz_from-lt 24 x (omega arith))

with_bit-lt : (x : ℕ) → x < 2 ^ 24 → with_bit 23 (x % 2 ^ 32) < 2 ^ 24
with_bit-lt x h = ground arith

normalized_sig-lt : (exp sig : ℕ) → sig < 2 ^ 23 → normalized_sig exp sig < 2 ^ 24
unfolding normalized_sig shifted_sig
normalized_sig-lt exp sig h = elim (Bool-cases (exp == 0)) [
  | inl e ↦ let l = clz-lt sig h in rw e (with_bit-lt (sig * 2 ^ (clz sig - 8)) l)
  | inr e ↦ rw e (ground arith)
]

-- The bits of two factors below 2 ^ 24 make the same product in either order.
product_comm :
    (x y : ℕ)
    → x < 2 ^ 24
    → y < 2 ^ 24
    → x * 2 ^ 7 % 2 ^ 32 * (y * 2 ^ 8 % 2 ^ 32) ≡ y * 2 ^ 7 % 2 ^ 32 * (x * 2 ^ 8 % 2 ^ 32)
product_comm x y h k =
    let x₇ : x * 2 ^ 7 % 2 ^ 32 ≡ x * 2 ^ 7 = omega arith in
    let x₈ : x * 2 ^ 8 % 2 ^ 32 ≡ x * 2 ^ 8 = omega arith in
    let y₇ : y * 2 ^ 7 % 2 ^ 32 ≡ y * 2 ^ 7 = omega arith in
    let y₈ : y * 2 ^ 8 % 2 ^ 32 ≡ y * 2 ^ 8 = omega arith in rw (x₇, x₈, y₇, y₈) (grind arith)

pub mul_end_comm :
    (state : State) (sign : Bool) (exp x y : ℕ)
    → x < 2 ^ 24
    → y < 2 ^ 24
    → mul_end state sign exp x y ≡ mul_end state sign exp y x
unfolding mul_end
mul_end_comm state sign exp x y h k = rw (product_comm x y h k)

pub choose-sfloat_mul :
    (state : State) (a b : ℕ)
    → sfloat_mul state a b
      ≡ choose
          (extract_exp a == 0xFF)
          (extract_exp b == 0xFF)
          (extract_frac a == 0)
          (extract_frac b == 0)
          (extract_exp a == 0 && extract_frac a == 0)
          (extract_exp b == 0 && extract_frac b == 0)
          (propagate_nan state a b)
          (raise invalid state, nan)
          (state, pack (not (same_sign a b)) 0xFF 0)
          (state, pack (not (same_sign a b)) 0 0)
          (mul_end state
            (not (same_sign a b))
            (sub_16
              (normalized_exp (extract_exp a) (extract_frac a)
                + normalized_exp (extract_exp b) (extract_frac b))
              0x7F)
            (normalized_sig (extract_exp a) (extract_frac a))
            (normalized_sig (extract_exp b) (extract_frac b)))
unfolding sfloat_mul choose
choose-sfloat_mul state a b = ground arith

-- A number of the class "infinite or NaN" that is no NaN is infinite.
isnan-infinite :
    (a : ℕ)
    → a < 2 ^ 32
    → isnan a ≡ false
    → (extract_exp a == 0xFF) ≡ true
    → (extract_frac a == 0) ≡ true
unfolding isnan
isnan-infinite a h k l = ground arith

infinite-zero : (e f : ℕ) → (e == 0xFF) ≡ true → (e == 0 && f == 0) ≡ false
infinite-zero e f h = ground arith

same_sign_comm : (a b : ℕ) → same_sign a b ≡ same_sign b a
same_sign_comm a b = ground arith

-- Of two words of 32 bits that are no NaN, `sfloat_mul` returns the same bits and raises the same flags in
-- either order, whatever the rounding mode.
pub sfloat_mul_comm :
    (state : State) (a b : ℕ)
    → a < 2 ^ 32
    → b < 2 ^ 32
    → isnan a ≡ false
    → isnan b ≡ false
    → sfloat_mul state a b ≡ sfloat_mul state b a
sfloat_mul_comm state a b h k na nb =
    let ea = extract_exp a in
    let eb = extract_exp b in
    let fa = extract_frac a in
    let fb = extract_frac b in
    let la = normalized_sig-lt ea fa (omega arith) in
    let lb = normalized_sig-lt eb fb (omega arith) in
    let swapped =
      mul_end_comm state (not (same_sign a b))
        (sub_16 (normalized_exp ea fa + normalized_exp eb fb) 0x7F) (normalized_sig ea fa)
        (normalized_sig eb fb) la lb in
    let order = add_comm (normalized_exp ea fa) (normalized_exp eb fb) in
    let sign = same_sign_comm a b in
    choose-sfloat_mul state a b
    ∙ choose_comm (ea == 0xFF) (eb == 0xFF) (fa == 0) (fb == 0) (ea == 0 && fa == 0)
        (eb == 0 && fb == 0) (propagate_nan state a b) (propagate_nan state b a)
        (raise invalid state, nan) (state, pack (not (same_sign a b)) 0xFF 0)
        (state, pack (not (same_sign a b)) 0 0) _ (isnan-infinite a h na) (isnan-infinite b k nb)
        (infinite-zero ea fa) (infinite-zero eb fb)
    ∙ rw (swapped, order, sign) (sym (choose-sfloat_mul state b a))
