-- ===== src/Fold/Kept/Logic.antt =====
-- The functions of Fold/Logic and the tables of constants.
use gmqcc.Prelude.{ℕ, Bool, not, ◌&&◌, none, some}
use gmqcc.Fold.{
  is_float, is_vector, is_string, is_array, fold_can_1, fold_can_2, AstValue, Options, Folder,
}
use gmqcc.Fold.Vectors.{Arithmetic}
use gmqcc.Fold.Operators.{Folded, immediate_true}
use gmqcc.Vm.Opcodes.{Opcode}
use gmqcc.Fold.Logic.{
  as_binary, div_node, op_div, op_mod, op_bits, op_shift, op_andor, op_tern, op_exp, op_lteqgt,
  op_ltgt, op_cmp, op_bnot, op_cross, op_length,
}
use gmqcc.Fold.Reports.{mulvf_checks-Extends, cross_checks-Extends, check_inexact_float-Extends}
use gmqcc.Fold.Pool.{Extends, constgen_float-Extends}
use gmqcc.Fold.Kept.{
  Keeps, keeps, either_folded, unfolded-Keeps, imm_float-Keeps, immediate_true-Extends,
  float_of-Keeps, vector_of-Keeps, checked_float-Keeps,
}

module _ {f₀ : Folder} where
  module _ {f : Folder} (m : Arithmetic) (o : Options) (h : Extends f₀ f) (a b c : AstValue) where
    as_binary-Keeps :
        (op : Opcode) (r : Folder × AstValue) → Extends f₀ r.0 → Keeps f₀ (as_binary m o op a r)
    as_binary-Keeps op r k = keeps _ k

    div_node-Keeps : (r : Folded) → Keeps f₀ r → Keeps f₀ (div_node m o a b r)
    div_node-Keeps (f', none) k = keeps _ k.state
    div_node-Keeps (f', some e) k = keeps _ k.state

    pub op_div-Keeps : Keeps f₀ (op_div m o a b f)
    unfolding op_div
    op_div-Keeps =
        either_folded (is_float a.vtype) _ _
          (either_folded (fold_can_2 a b) _ _ (checked_float-Keeps m o h _ _) (
            either_folded (fold_can_1 b) _ _ (as_binary-Keeps _ _ (constgen_float-Extends _ _ h))
              (unfolded-Keeps h)))
          (either_folded (is_vector a.vtype) _ _
            (either_folded (fold_can_2 a b) _ _
              (vector_of-Keeps m o (mulvf_checks-Extends o h _ _) _)
              (either_folded (fold_can_1 b) _ _ (as_binary-Keeps _ _ (constgen_float-Extends _ _ h))
                (div_node-Keeps _ (imm_float-Keeps 1 h))))
            (unfolded-Keeps h))

    pub op_mod-Keeps : Keeps f₀ (op_mod m o a b f)
    unfolding op_mod
    op_mod-Keeps = either_folded _ _ _ (float_of-Keeps m o h _ _) (unfolded-Keeps h)

    pub op_bits-Keeps : (op : ℕ → ℕ → ℕ) → Keeps f₀ (op_bits m o op a b f)
    unfolding op_bits
    op_bits-Keeps op = either_folded _ _ _ (unfolded-Keeps h) (
        either_folded _ _ _ (float_of-Keeps m o h _ _)
          (either_folded _ _ _ (vector_of-Keeps m o h _) (vector_of-Keeps m o h _)))

    pub op_shift-Keeps : (op : ℕ → ℕ → ℕ) → Keeps f₀ (op_shift m o op a b f)
    unfolding op_shift
    op_shift-Keeps op = either_folded _ _ _ (float_of-Keeps m o h _ _) (unfolded-Keeps h)

    pub op_andor-Keeps : (expr : Bool) → Keeps f₀ (op_andor m o expr a b f)
    unfolding op_andor
    op_andor-Keeps expr =
        let first = immediate_true-Extends m o h a in
        let second = immediate_true-Extends m o first b in
        let truth = (immediate_true m o a f).1 in
        either_folded (not (fold_can_2 a b)) _ _ (unfolded-Keeps h) (
          either_folded o.perl_logic _ _ (either_folded expr _ _ (keeps _ first) (keeps _ first)) (
            either_folded expr _ _
              (either_folded truth _ _ (float_of-Keeps m o first _ _)
                (float_of-Keeps m o second _ _))
              (either_folded truth _ _ (float_of-Keeps m o second _ _)
                (float_of-Keeps m o first _ _))))

    pub op_tern-Keeps : Keeps f₀ (op_tern m o a b c f)
    unfolding op_tern
    op_tern-Keeps =
        either_folded _ _ _ (keeps _ (immediate_true-Extends m o h a)) (unfolded-Keeps h)

    pub op_exp-Keeps : Keeps f₀ (op_exp m o a b f)
    unfolding op_exp
    op_exp-Keeps = either_folded _ _ _ (float_of-Keeps m o h _ _) (unfolded-Keeps h)

    pub op_lteqgt-Keeps : Keeps f₀ (op_lteqgt m o a b f)
    unfolding op_lteqgt
    op_lteqgt-Keeps =
        let checked = check_inexact_float-Extends o h a b in
        either_folded _ _ _ (unfolded-Keeps h) (
          either_folded _ _ _ (imm_float-Keeps 2 checked) (
            either_folded _ _ _ (imm_float-Keeps 0 checked)
              (either_folded _ _ _ (imm_float-Keeps 1 checked) (unfolded-Keeps checked))))

    pub op_ltgt-Keeps : (lt : Bool) → Keeps f₀ (op_ltgt m o lt a b f)
    unfolding op_ltgt
    op_ltgt-Keeps lt =
        let checked = check_inexact_float-Extends o h a b in
        either_folded _ _ _ (unfolded-Keeps h)
          (either_folded _ _ _ (imm_float-Keeps _ checked) (imm_float-Keeps _ checked))

    pub op_cmp-Keeps : (ne : Bool) → Keeps f₀ (op_cmp m o ne a b f)
    unfolding op_cmp
    op_cmp-Keeps ne = either_folded (not (fold_can_2 a b)) _ _ (unfolded-Keeps h) (
        either_folded (is_float a.vtype && is_float b.vtype) _ _
          (imm_float-Keeps _ (check_inexact_float-Extends o h a b))
          (either_folded (is_vector a.vtype && is_vector b.vtype) _ _ (imm_float-Keeps _ h) (
            either_folded (is_string a.vtype && is_string b.vtype) _ _ (imm_float-Keeps _ h)
              (unfolded-Keeps h))))

    pub op_bnot-Keeps : Keeps f₀ (op_bnot m o a f)
    unfolding op_bnot
    op_bnot-Keeps =
        either_folded _ _ _ (float_of-Keeps m o h _ _)
          (either_folded _ _ _ (vector_of-Keeps m o h _) (unfolded-Keeps h))

    pub op_cross-Keeps : Keeps f₀ (op_cross m o a b f)
    unfolding op_cross
    op_cross-Keeps =
        either_folded _ _ _ (vector_of-Keeps m o (cross_checks-Extends o h _ _) _)
          (unfolded-Keeps h)

    pub op_length-Keeps : Keeps f₀ (op_length m o a f)
    unfolding op_length
    op_length-Keeps =
        either_folded (fold_can_1 a && is_string a.vtype) _ _ (float_of-Keeps m o h _ _)
          (either_folded (is_array a.vtype) _ _ (float_of-Keeps m o h _ _) (unfolded-Keeps h))
