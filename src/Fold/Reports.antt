-- ===== src/Fold/Reports.antt =====
-- The checks of exceptions of fold.cpp and the tables of constants.
use gmqcc.Prelude.{
  ℕ, Bool, true, false, ◌&&◌, ◌||◌, List, [], ◌∷◌, Option, some, if-both, if◌then◌else◌,
}
use gmqcc.Sfloat.{State}
use gmqcc.Fold.{AstValue, Options, Folder, Component, Fault}
use gmqcc.Fold.Vectors.{Vec3}
use gmqcc.Fold.Except.{
  check, vec3_soft_exception, sfloat_check, check_all, faulty, vec3_check_except, neg_checks,
  mulvv_checks, mulvf_checks, cross_checks, check_inexact_float,
}
use gmqcc.Fold.Pool.{Extends, report-Extends}

pub either :
    {f₀ : Folder} (b : Bool) (f f' : Folder)
    → Extends f₀ f
    → Extends f₀ f'
    → Extends f₀ (if b then f else f')
either {f₀} b f f' p q = if-both (Extends f₀) b f f' p q

module _ {f₀ : Folder} where
  pub check_lem :
      {f : Folder} (b : Bool) (fault : Fault) (vec : Option Component)
      → Extends f₀ f
      → Extends f₀ (check b fault vec f)
  unfolding check
  check_lem true fault vec h = report-Extends _ h
  check_lem false fault vec h = h

  pub sfloat_check-Extends :
      {f : Folder} (s : State) (vec : Option Component)
      → Extends f₀ f
      → Extends f₀ (sfloat_check s vec f)
  unfolding sfloat_check
  sfloat_check-Extends {f = f} s vec h =
      check_lem _ _ vec (check_lem _ _ vec (check_lem _ _ vec (check_lem _ _ vec h)))

  pub check_all-Extends :
      {f : Folder} (ss : List (State × Option Component))
      → Extends f₀ f
      → Extends f₀ (check_all ss f)
  unfolding check_all
  check_all-Extends {f = f} [] h = h
  check_all-Extends {f = f} ((s, vec) ∷ ss) h =
      check_all-Extends {f = sfloat_check s vec f} ss (sfloat_check-Extends s vec h)

  pub faulty-Extends :
      {f : Folder} (s : State) (c : Component) → Extends f₀ f → Extends f₀ (faulty s c f)
  unfolding faulty
  faulty-Extends {f = f} s c h =
      either (vec3_soft_exception s) _ _ (sfloat_check-Extends s (some c) h) h

  module _ {f : Folder} (o : Options) (h : Extends f₀ f) where
    pub vec3_check_except-Extends :
        (callback : State → ℕ → ℕ → State × ℕ) (a b : Vec3)
        → Extends f₀ (vec3_check_except o callback a b f)
    unfolding vec3_check_except
    vec3_check_except-Extends callback a b =
        either o.arithmetic_exceptions _ _
          (faulty-Extends _ _ (faulty-Extends _ _ (faulty-Extends _ _ h))) h

    pub neg_checks-Extends : (a : Vec3) → Extends f₀ (neg_checks o a f)
    unfolding neg_checks
    neg_checks-Extends a = either o.arithmetic_exceptions _ _ (check_all-Extends _ h) h

    pub mulvv_checks-Extends : (a b : Vec3) → Extends f₀ (mulvv_checks o a b f)
    unfolding mulvv_checks
    mulvv_checks-Extends a b = either o.arithmetic_exceptions _ _ (check_all-Extends _ h) h

    pub mulvf_checks-Extends : (a : Vec3) (b : ℕ) → Extends f₀ (mulvf_checks o a b f)
    unfolding mulvf_checks
    mulvf_checks-Extends a b = either o.arithmetic_exceptions _ _ (check_all-Extends _ h) h

    pub cross_checks-Extends : (a b : Vec3) → Extends f₀ (cross_checks o a b f)
    unfolding cross_checks
    cross_checks-Extends a b = either o.arithmetic_exceptions _ _ (check_all-Extends _ h) h

    pub check_inexact_float-Extends : (a b : AstValue) → Extends f₀ (check_inexact_float o a b f)
    unfolding check_inexact_float
    check_inexact_float-Extends a b =
        either (o.warn_inexact_compares && (a.inexact || b.inexact)) _ _ (report-Extends _ h) h
