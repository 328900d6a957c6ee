-- ===== src/Sfloat/Tests.antt =====
-- Runs of the software float.
use gmqcc.Prelude.{
  ℕ, ◌+◌, ◌-◌, ◌*◌, ◌%◌, ◌^◌, ◌≤◌, ◌<◌, ◌≡◌, refl, false, not, ◌==◌, if◌then◌else◌, arith,
}
use gmqcc.Sfloat.{
  State, inexact, raise, raise_if, nearest_even, tiny_before, isnan, issnan, shift, pack, clz,
  propagate_nan, pack_round, pack_normal,
}
use gmqcc.Sfloat.Rounding.{IsRounded, pack_round-IsRounded}
use gmqcc.Sfloat.Shift.{jammed, shift-eq-jammed}
use gmqcc.Sfloat.Subnormal.{sfloat_add_subnormal}
use gmqcc.Sfloat.Product.{sfloat_mul_comm}
use gmqcc.Sfloat.Normalize.{sfloat_mul_subnormal}
use gmqcc.Sfloat.Arith.{shifted_sig, sfloat_add, sfloat_sub, sfloat_mul, sfloat_div, sfloat_neg}

program : Unit {0}
unfolding isnan issnan shift pack clz propagate_nan pack_round pack_normal sfloat_add sfloat_sub
    sfloat_mul sfloat_div sfloat_neg
program = tt

-- `sfloat_init`
abbrev initial : State
initial = record { roundingmode = nearest_even; exceptionflags = 0; tiny = tiny_before }

abbrev raised : ℕ → State
raised flags = record initial { exceptionflags = flags }

-- 1 + 2, 1.5 - 0.1, 1.5 * 2, 1 / 3, 1 / 0, -(1.5), the largest finite number twice.
sfloat_runs :
    (sfloat_add initial 0x3F800000 0x40000000 ≡ (initial, 0x40400000))
    × (sfloat_sub initial 0x3FC00000 0x3DCCCCCD ≡ (raised 32, 0x3FB33333))
    × (sfloat_mul initial 0x3FC00000 0x40000000 ≡ (initial, 0x40400000))
    × (sfloat_div initial 0x3F800000 0x40400000 ≡ (raised 32, 0x3EAAAAAB))
    × (sfloat_div initial 0x3F800000 0 ≡ (raised 4, 0x7F800000))
    × (sfloat_neg initial 0x3FC00000 ≡ (initial, 0xBFC00000))
    × (sfloat_add initial 0x7F7FFFFF 0x7F7FFFFF ≡ (raised 40, 0x7F800000))
    × (sfloat_mul initial 0x00800000 0x3F000000 ≡ (initial, 0x00400000))
unfolding program
sfloat_runs = (refl, refl, refl, refl, refl, refl, refl, refl)

pack_round-IsRounded_example :
    (r : ℕ) × IsRounded nearest_even false 0x40000041 r
    × (pack_round initial false 0x7F 0x40000041 ≡ (
      raise_if (not (0x40000041 % 128 == 0)) inexact initial,
      pack false (if r == 0 then 0 else 0x7F) r,
    ))
pack_round-IsRounded_example =
    pack_round-IsRounded initial false 0x7F 0x40000041 (omega arith) (omega arith)

shift-eq-jammed_example : shift 32 0x40000001 5 ≡ jammed 0x40000001 (2 ^ 5)
shift-eq-jammed_example = shift-eq-jammed 0x40000001 5 (omega arith) (omega arith)

sfloat_add_subnormal_example :
    sfloat_add initial 0x00800000 0x00700000 ≡ (raise inexact initial, 0x00800000)
sfloat_add_subnormal_example =
    sfloat_add_subnormal initial 0x00800000 0x00700000 refl (omega arith) (omega arith)
      (omega arith)

sfloat_mul_comm_example :
    sfloat_mul initial 0x3FC00000 0x3DCCCCCD ≡ sfloat_mul initial 0x3DCCCCCD 0x3FC00000
unfolding isnan
sfloat_mul_comm_example =
    sfloat_mul_comm initial 0x3FC00000 0x3DCCCCCD (omega arith) (omega arith) refl refl

sfloat_mul_subnormal_example :
    (n : ℕ) × (n ≡ 3 * 2 ^ (clz 3 - 8))
    × (2 ^ 23 ≤ n)
    × (n < 2 ^ 24)
    × (sfloat_mul initial 0x3F80_0000 3 ≡ (initial, n))
    × (sfloat_neg initial 3 ≡ (initial, 2 ^ 31 + n))
sfloat_mul_subnormal_example = sfloat_mul_subnormal initial 3 (omega arith) (omega arith)

-- 1 * b and -b for the subnormal number b = 3 * 2^-149.
sfloat_mul_subnormal_runs :
    (sfloat_mul initial 0x3F800000 3 ≡ (initial, 0x00C00000))
    × (sfloat_neg initial 3 ≡ (initial, 0x80C00000))
unfolding program shifted_sig
sfloat_mul_subnormal_runs = (refl, refl)
