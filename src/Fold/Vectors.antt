-- ===== src/Fold/Vectors.antt =====
-- The arithmetic of the machine that the compiler runs on, on the bits of floats, and the functions
-- on vectors of fold.cpp.
use Prim.Native.Nat.{bit_and, bit_or, bit_xor}
use gmqcc.Prelude.{ℕ, Bool, not, ◌&&◌, ◌||◌}
use gmqcc.Vm.Step.{Floats}

-- `negate` is the unary minus, `of_size` the conversion from `size_t`, and the others are those of
-- the C library.
pub record Arithmetic : Type 0 where
  pub floats : Floats
  pub negate : ℕ → ℕ
  pub of_size : ℕ → ℕ
  pub fmod : ℕ → ℕ → ℕ
  pub powf : ℕ → ℕ → ℕ
  pub floorf : ℕ → ℕ

-- The bits of 1.0f, -1.0f and 2.0f.
abbrev pub one : ℕ
one = 0x3F80_0000

abbrev pub minus_one : ℕ
minus_one = 0xBF80_0000

abbrev pub two : ℕ
two = 0x4000_0000

abbrev pub Vec3 : Type 0
Vec3 = ℕ × ℕ × ℕ

-- A function of each component.
abbrev pub each : (ℕ → ℕ → ℕ) → Vec3 → Vec3 → Vec3
each f a b = (f a.0 b.0, f a.1 b.1, f a.2 b.2)

-- `(qcfloat_t)(((qcint_t)a) | ((qcint_t)b))` and its kin.
abbrev pub int_or : Floats → ℕ → ℕ → ℕ
int_or fl a b = fl.of_int (bit_or (fl.to_int a) (fl.to_int b))

abbrev pub int_and : Floats → ℕ → ℕ → ℕ
int_and fl a b = fl.of_int (bit_and (fl.to_int a) (fl.to_int b))

abbrev pub int_xor : Floats → ℕ → ℕ → ℕ
int_xor fl a b = fl.of_int (bit_xor (fl.to_int a) (fl.to_int b))

-- `!w` for a float.
abbrev pub is_zero : Floats → ℕ → Bool
is_zero fl w = fl.eq w 0

unfoldable pub vec3_not : Floats → Vec3 → Vec3
vec3_not fl a = (fl.sub minus_one a.0, fl.sub minus_one a.1, fl.sub minus_one a.2)

unfoldable pub vec3_notf : Floats → Vec3 → Bool
vec3_notf fl a = is_zero fl a.0 && is_zero fl a.1 && is_zero fl a.2

unfoldable pub vec3_pbool : Floats → Vec3 → Bool
vec3_pbool fl a = not (is_zero fl a.0) || not (is_zero fl a.1) || not (is_zero fl a.2)

unfoldable pub cross : Floats → Vec3 → Vec3 → Vec3
cross fl a b = (
  fl.sub (fl.mul a.1 b.2) (fl.mul a.2 b.1),
  fl.sub (fl.mul a.2 b.0) (fl.mul a.0 b.2),
  fl.sub (fl.mul a.0 b.1) (fl.mul a.1 b.0),
)
