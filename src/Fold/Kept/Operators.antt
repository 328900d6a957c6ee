-- ===== src/Fold/Kept/Operators.antt =====
-- The functions of Fold/Operators and the tables of constants.
use gmqcc.Prelude.{suc, refl, ◌&&◌, none, some}
use gmqcc.Fold.{is_float, is_vector, is_string, fold_can_1, fold_can_2, AstValue, Options, Folder}
use gmqcc.Fold.Vectors.{Arithmetic, Vec3}
use gmqcc.Fold.Operators.{
  Folded, op_neg, op_not, op_add, op_sub, op_mul_vec, or_else, mul_components, scaled, mul_float,
  mul_vector, op_mul,
}
use gmqcc.Fold.Reports.{
  vec3_check_except-Extends, neg_checks-Extends, mulvv_checks-Extends, mulvf_checks-Extends,
}
use gmqcc.Fold.Pool.{Extends, same_tables, constgen_float-Extends}
use gmqcc.Fold.Kept.{
  Keeps, keeps, either_folded, unfolded-Keeps, float_of-Keeps, vector_of-Keeps, checked_float-Keeps,
}

module _ {f₀ : Folder} where
  module _ {f : Folder} (m : Arithmetic) (o : Options) (h : Extends f₀ f) (a b c : AstValue) where
    pub op_neg-Keeps : Keeps f₀ (op_neg m o a f)
    unfolding op_neg
    op_neg-Keeps =
        either_folded _ _ _ (checked_float-Keeps m o h _ _) (
          either_folded _ _ _ (vector_of-Keeps m o (neg_checks-Extends o h _) _) (unfolded-Keeps h))

    pub op_not-Keeps : Keeps f₀ (op_not m o a f)
    unfolding op_not
    op_not-Keeps = either_folded (is_float a.vtype && fold_can_1 a) _ _ (float_of-Keeps m o h _ _) (
        either_folded (is_vector a.vtype && fold_can_1 a) _ _ (float_of-Keeps m o h _ _) (
          either_folded (is_string a.vtype && fold_can_1 a) _ _ (float_of-Keeps m o h _ _)
            (unfolded-Keeps h)))

    pub op_add-Keeps : Keeps f₀ (op_add m o a b f)
    unfolding op_add
    op_add-Keeps = either_folded _ _ _ (checked_float-Keeps m o h _ _) (
        either_folded _ _ _ (vector_of-Keeps m o (vec3_check_except-Extends o h _ _ _) _)
          (unfolded-Keeps h))

    pub op_sub-Keeps : Keeps f₀ (op_sub m o a b f)
    unfolding op_sub
    op_sub-Keeps = either_folded _ _ _ (checked_float-Keeps m o h _ _) (
        either_folded _ _ _ (vector_of-Keeps m o (vec3_check_except-Extends o h _ _ _) _)
          (unfolded-Keeps h))

    op_mul_vec-Keeps : (vec set : Vec3) → Keeps f₀ (op_mul_vec m o vec a set f)
    unfolding op_mul_vec
    op_mul_vec-Keeps vec set =
        let counted : Extends f₀
            (record f { count_vector_components = suc f.count_vector_components }) =
          same_tables f _ refl refl h in
        either_folded _ _ _
          (either_folded _ _ _ (unfolded-Keeps counted)
            (keeps _ (constgen_float-Extends _ _ counted)))
          (unfolded-Keeps h)

    scaled-Keeps : Keeps f₀ (scaled m o a b f)
    unfolding scaled
    scaled-Keeps = vector_of-Keeps m o (mulvf_checks-Extends o h _ _) _

  module _ (m : Arithmetic) (o : Options) where
    or_else-Keeps :
        (r : Folded) (next : Folder → Folded)
        → Keeps f₀ r
        → ((f : Folder) → Extends f₀ f → Keeps f₀ (next f))
        → Keeps f₀ (or_else m o r next)
    or_else-Keeps (f, none) next p q = q f p.state
    or_else-Keeps (f, some e) next p q = p

    mul_components-Keeps :
        (vec : Vec3) (sel : AstValue) (f : Folder)
        → Extends f₀ f
        → Keeps f₀ (mul_components m o vec sel f)
    unfolding mul_components
    mul_components-Keeps vec sel f h =
        or_else-Keeps _ _
          (or_else-Keeps _ _ (op_mul_vec-Keeps m o h sel sel sel vec (0, 1, 2))
            (λ f' h'. op_mul_vec-Keeps m o h' sel sel sel vec (1, 0, 2)))
          (λ f' h'. op_mul_vec-Keeps m o h' sel sel sel vec (2, 0, 1))

  module _ {f : Folder} (m : Arithmetic) (o : Options) (h : Extends f₀ f) (a b c : AstValue) where
    mul_float-Keeps : Keeps f₀ (mul_float m o a b f)
    unfolding mul_float
    mul_float-Keeps =
        either_folded _ _ _ (unfolded-Keeps h)
          (either_folded _ _ _ (scaled-Keeps m o h b a a) (checked_float-Keeps m o h _ _))

    mul_vector-Keeps : Keeps f₀ (mul_vector m o a b f)
    unfolding mul_vector
    mul_vector-Keeps =
        either_folded (is_float b.vtype) _ _
          (either_folded (fold_can_2 a b) _ _ (scaled-Keeps m o h a b b) (unfolded-Keeps h))
          (either_folded (fold_can_2 a b) _ _
            (float_of-Keeps m o (mulvv_checks-Extends o h _ _) _ _)
            (either_folded (o.vector_components && fold_can_1 a) _ _
              (mul_components-Keeps m o _ _ f h)
              (either_folded (o.vector_components && fold_can_1 b) _ _
                (mul_components-Keeps m o _ _ f h) (unfolded-Keeps h))))

    pub op_mul-Keeps : Keeps f₀ (op_mul m o a b f)
    unfolding op_mul
    op_mul-Keeps =
        either_folded _ _ _ mul_float-Keeps
          (either_folded _ _ _ mul_vector-Keeps (unfolded-Keeps h))
