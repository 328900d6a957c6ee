-- ===== src/Prelude/Tables.antt =====
-- Facts about all numbers below a bound, by a run of a test on each.
use mathlib.Core.Path.{◌≡◌, sym, subst}
use mathlib.Core.Logic.{inl, inr}
use mathlib.Core.Bool.{Bool, true, ◌&&◌}
use native.Mathlib.Omega.{arith}
use native.Mathlib.Decide.{ℕ_discrete}
use Prim.Native.Nat.{ℕ, zero, suc, ◌<◌}
use gmqcc.Prelude.Tests.{Bool-cases}

unfoldable pub all_below : ℕ → (ℕ → Bool) → Bool
all_below zero f = true
all_below (suc n) f = f n && all_below n f

pub all_below-lt : (n : ℕ) (f : ℕ → Bool) (i : ℕ) → all_below n f ≡ true → i < n → f i ≡ true
unfolding all_below
all_below-lt zero f i h p = elim p [ ]
all_below-lt (suc n) f i h p = elim (Bool-cases (f n)) [
  | inl e ↦ elim (ℕ_discrete i n) [
    | yes same ↦ subst (λ j. f j ≡ true) (sym same) e
    | no differ ↦ all_below-lt n f i (rw e at h) (omega (arith, differ))
  ]
  | inr e ↦ cc (rw e at h)
]
