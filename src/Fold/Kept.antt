-- ===== src/Fold/Kept.antt =====
-- What keeps the tables of constants of fold.cpp, or extends them.
pub mod Operators
pub mod Logic
use gmqcc.Prelude.{
  ℕ, suc, refl, Bool, not, ◌&&◌, Option, none, some, if-both, if◌then◌else◌, ◌==◌, get_elem?,
}
use gmqcc.Sfloat.{State}
use gmqcc.Fold.{
  is_float, is_vector, is_string, is_array, fold_can_1, fold_can_2, AstValue, Options, Folder,
  ValueType, type_void, type_string, type_float, type_vector, type_entity, type_field,
  type_function, type_pointer, type_integer, type_variant, type_struct, type_union, type_array,
  type_nil, type_noexpr,
}
use gmqcc.Fold.Vectors.{Arithmetic, Vec3}
use gmqcc.Fold.Except.{check_except_float}
use gmqcc.Fold.Operators.{
  Folded, unfolded, at_place, imm_float, true_by, immediate_true, float_of, vector_of,
  checked_float, op_neg, op_not, op_add, op_sub, op_mul_vec, or_else, mul_components, scaled,
  mul_float, mul_vector, op_mul,
}
use gmqcc.Vm.Opcodes.{Opcode}
use gmqcc.Fold.Logic.{
  as_binary, div_node, op_div, op_mod, op_bits, op_shift, op_andor, op_tern, op_exp, op_lteqgt,
  op_ltgt, op_cmp, op_bnot, op_cross, op_length,
}
use gmqcc.Fold.Reports.{
  either, sfloat_check-Extends, vec3_check_except-Extends, neg_checks-Extends, mulvv_checks-Extends,
  mulvf_checks-Extends, cross_checks-Extends, check_inexact_float-Extends,
}
use gmqcc.Fold.Pool.{
  Extends, report-Extends, same_tables, constgen_float-Extends, constgen_vector-Extends,
}

-- The state that a function `op_*` leaves.
pub record Keeps (f₀ : Folder) (r : Folded) : Type 0 where
  pub state : Extends f₀ r.0

module _ {f₀ : Folder} where
  pub keeps : (r : Folded) → Extends f₀ r.0 → Keeps f₀ r
  keeps r h = record { state = h }

  pub either_folded :
      (b : Bool) (r r' : Folded) → Keeps f₀ r → Keeps f₀ r' → Keeps f₀ (if b then r else r')
  either_folded b r r' p q = if-both (Keeps f₀) b r r' p q

  pub unfolded-Keeps : {f : Folder} → Extends f₀ f → Keeps f₀ (unfolded f)
  unfolded-Keeps h = keeps _ h

  at_place-Keeps : {f : Folder} (v : Option AstValue) → Extends f₀ f → Keeps f₀ (at_place v f)
  at_place-Keeps none h = keeps _ h
  at_place-Keeps (some v) h = keeps _ h

  pub imm_float-Keeps : {f : Folder} (i : ℕ) → Extends f₀ f → Keeps f₀ (imm_float i f)
  unfolding imm_float
  imm_float-Keeps {f = f} i h = at_place-Keeps (get_elem? f.imm_float i) h

  true_by-Extends :
      {f : Folder} (t : ValueType) (m : Arithmetic) (o : Options) (v : AstValue)
      → Extends f₀ f
      → Extends f₀ (true_by t m o v f).0
  unfolding true_by
  true_by-Extends type_void m o v h = report-Extends _ h
  true_by-Extends type_string m o v h = h
  true_by-Extends type_float m o v h = h
  true_by-Extends type_vector m o v h = h
  true_by-Extends type_entity m o v h = report-Extends _ h
  true_by-Extends type_field m o v h = report-Extends _ h
  true_by-Extends type_function m o v h = report-Extends _ h
  true_by-Extends type_pointer m o v h = report-Extends _ h
  true_by-Extends type_integer m o v h = h
  true_by-Extends type_variant m o v h = report-Extends _ h
  true_by-Extends type_struct m o v h = report-Extends _ h
  true_by-Extends type_union m o v h = report-Extends _ h
  true_by-Extends type_array m o v h = report-Extends _ h
  true_by-Extends type_nil m o v h = report-Extends _ h
  true_by-Extends type_noexpr m o v h = report-Extends _ h

  module _ {f : Folder} (m : Arithmetic) (o : Options) (h : Extends f₀ f) where
    pub check_except_float-Extends : (s : State) → Extends f₀ (check_except_float o s f).0
    unfolding check_except_float
    check_except_float-Extends s =
        if-both (λ (r : Folder × Bool). Extends f₀ r.0)
          (not o.arithmetic_exceptions && not o.warn_inexact_compares) _ _ h
          (if-both (λ (r : Folder × Bool). Extends f₀ r.0) (s.exceptionflags == 0) _ _ h
            (either o.arithmetic_exceptions _ _ (sfloat_check-Extends s none h) h))

    pub float_of-Keeps : (value : ℕ) (inexact : Bool) → Keeps f₀ (float_of m o value inexact f)
    unfolding float_of
    float_of-Keeps value inexact = keeps _ (constgen_float-Extends value inexact h)

    pub vector_of-Keeps : (value : Vec3) → Keeps f₀ (vector_of m o value f)
    unfolding vector_of
    vector_of-Keeps value = keeps _ (constgen_vector-Extends m.floats value h)

    pub immediate_true-Extends : (v : AstValue) → Extends f₀ (immediate_true m o v f).0
    unfolding immediate_true
    immediate_true-Extends v = true_by-Extends v.vtype m o v h

    pub checked_float-Keeps :
        (value : ℕ) (soft : State × ℕ) → Keeps f₀ (checked_float m o value soft f)
    unfolding checked_float float_of
    checked_float-Keeps value soft = keeps _ (
        constgen_float-Extends value (check_except_float o soft.0 f).1
          (check_except_float-Extends soft.0))
