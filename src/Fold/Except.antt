-- ===== src/Fold/Except.antt =====
-- The exceptions of folded arithmetic in fold.cpp, found with the software float and reported.
use gmqcc.Prelude.{
  ℕ, ◌/◌, ◌%◌, Bool, false, not, ◌&&◌, ◌||◌, List, [], ◌∷◌, Option, none, some, ◌==◌, if◌then◌else◌,
}
use gmqcc.Sfloat.{State, nearest_even, tiny_before}
use gmqcc.Sfloat.Arith.{sfloat_add, sfloat_sub, sfloat_mul, sfloat_neg}
use gmqcc.Fold.{
  Options, AstValue, Folder, Component, comp_x, comp_y, comp_z, Fault, division_by_zero,
  undefined_inf, overflow, underflow, arithmetic, inexact_comparison, report,
}
use gmqcc.Fold.Vectors.{Vec3}

-- `sfloat_init`
abbrev pub initial : State
initial = record { roundingmode = nearest_even; exceptionflags = 0; tiny = tiny_before }

abbrev raised : ℕ → State → Bool
raised flag s = not (s.exceptionflags / flag % 2 == 0)

-- One of the tests of `sfloat_check`, for a component or for the whole.
unfoldable pub check : Bool → Fault → Option Component → Folder → Folder
check b fault vec f = if b then report (arithmetic fault vec) f else f

unfoldable pub sfloat_check : State → Option Component → Folder → Folder
sfloat_check s vec f = check (raised 16 s) underflow vec (
    check (raised 8 s) overflow vec
      (check (raised 1 s) undefined_inf vec (check (raised 4 s) division_by_zero vec f)))

-- `sfloat_check` of several states in turn.
unfoldable pub check_all : List (State × Option Component) → Folder → Folder
check_all [] f = f
check_all ((s, vec) ∷ ss) f = check_all ss (sfloat_check s vec f)

unfoldable pub vec3_soft_exception : State → Bool
vec3_soft_exception s = raised 4 s || raised 1 s || raised 8 s || raised 16 s

-- The checks of the components in which `vec3_soft_eval` finds a fault.
unfoldable pub faulty : State → Component → Folder → Folder
faulty s c f = if vec3_soft_exception s then sfloat_check s (some c) f else f

unfoldable pub vec3_check_except :
    Options → (State → ℕ → ℕ → State × ℕ) → Vec3 → Vec3 → Folder → Folder
vec3_check_except o callback a b f =
    if o.arithmetic_exceptions
    then faulty (callback initial a.2 b.2).0 comp_z
        (faulty (callback initial a.1 b.1).0 comp_y (faulty (callback initial a.0 b.0).0 comp_x f))
    else f

-- The checks of `vec3_neg`.
unfoldable pub neg_checks : Options → Vec3 → Folder → Folder
neg_checks o a f =
    if o.arithmetic_exceptions
    then check_all
        (((sfloat_neg initial a.0).0, none)
          ∷ (((sfloat_neg initial a.1).0, none) ∷ (((sfloat_neg initial a.2).0, none) ∷ [])))
        f
    else f

-- The checks of `vec3_mulvv`.
unfoldable pub mulvv_checks : Options → Vec3 → Vec3 → Folder → Folder
mulvv_checks o a b f =
    let r₀ = sfloat_mul initial a.0 b.0 in
    let r₁ = sfloat_mul initial a.1 b.1 in
    let r₂ = sfloat_mul initial a.2 b.2 in
    let r₃ = sfloat_add initial r₀.1 r₁.1 in
    let r₄ = sfloat_add initial r₃.1 r₂.1 in
    if o.arithmetic_exceptions
    then check_all
        ((r₀.0, none) ∷ ((r₁.0, none) ∷ ((r₂.0, none) ∷ ((r₃.0, none) ∷ ((r₄.0, none) ∷ []))))) f
    else f

-- The checks of `vec3_mulvf`.
unfoldable pub mulvf_checks : Options → Vec3 → ℕ → Folder → Folder
mulvf_checks o a b f =
    if o.arithmetic_exceptions
    then check_all
        (((sfloat_mul initial a.0 b).0, some comp_x)
          ∷ (((sfloat_mul initial a.1 b).0, some comp_y)
              ∷ (((sfloat_mul initial a.2 b).0, some comp_z) ∷ [])))
        f
    else f

-- The checks of `vec3_cross`.
unfoldable pub cross_checks : Options → Vec3 → Vec3 → Folder → Folder
cross_checks o a b f =
    let r₀ = sfloat_mul initial a.1 b.2 in
    let r₁ = sfloat_mul initial a.2 b.1 in
    let r₂ = sfloat_mul initial a.2 b.0 in
    let r₃ = sfloat_mul initial a.0 b.2 in
    let r₄ = sfloat_mul initial a.0 b.1 in
    let r₅ = sfloat_mul initial a.1 b.0 in
    let products =
      (r₀.0, none)
      ∷ ((r₁.0, none)
          ∷ ((r₂.0, none)
              ∷ ((r₃.0, none)
                  ∷ ((r₄.0, none)
                      ∷ ((r₅.0, none)
                          ∷ (((sfloat_sub initial r₀.1 r₁.1).0, some comp_x)
                              ∷ (((sfloat_sub initial r₂.1 r₃.1).0, some comp_y)
                                  ∷ (((sfloat_sub initial r₄.1 r₅.1).0, some comp_z) ∷ [])))))))) in
    if o.arithmetic_exceptions then check_all products f else f

-- `check_except_float_impl`, given the state in which the callback leaves the float: whether the
-- result is inexact.
unfoldable pub check_except_float : Options → State → Folder → Folder × Bool
check_except_float o s f =
    if not o.arithmetic_exceptions && not o.warn_inexact_compares
    then (f, false)
    else if s.exceptionflags == 0
    then (f, false)
    else (if o.arithmetic_exceptions then sfloat_check s none f else f, raised 32 s)

-- `check_inexact_float`, whose result is not used.
unfoldable pub check_inexact_float : Options → AstValue → AstValue → Folder → Folder
check_inexact_float o a b f =
    if o.warn_inexact_compares && (a.inexact || b.inexact) then report inexact_comparison f else f
