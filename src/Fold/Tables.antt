-- ===== src/Fold/Tables.antt =====
-- The tables of constants through `fold::op`.
use gmqcc.Prelude.{refl, true, false, not, ◌&&◌, ◌||◌, Option, none, some, ltb, leb, ◌==◌}
use gmqcc.Fold.{AstValue, Options, Folder}
use gmqcc.Fold.Vectors.{Arithmetic}
use gmqcc.Fold.Operators.{Folded, op_neg, op_not, op_add, op_sub, op_mul}
use gmqcc.Fold.Logic.{
  op_div, op_mod, op_bor, op_band, op_xor, op_lshift, op_rshift, op_andor, op_tern, op_exp,
  op_lteqgt, op_ltgt, op_cmp, op_bnot, op_cross, op_length,
}
use gmqcc.Fold.Select.{
  Operator, OperInfo, op, fold_op_case, counted, is_missing, with_1, with_2, with_3, op_id_neg,
  op_id_not, op_id_add, op_id_sub, op_id_mul, op_id_div, op_id_mod, op_id_bor, op_id_band,
  op_id_xor, op_id_lt, op_id_gt, op_id_lshift, op_id_rshift, op_id_or, op_id_and, op_id_tern,
  op_id_exp, op_id_lteqgt, op_id_ne, op_id_eq, op_id_bnot, op_id_cross, op_id_length, op_id_other,
}
use gmqcc.Fold.Pool.{IsPool, Extends, Extends_refl, same_tables, report-Extends}
use gmqcc.Fold.Kept.{Keeps, keeps, either_folded}
use gmqcc.Fold.Kept.Operators.{op_neg-Keeps, op_not-Keeps, op_add-Keeps, op_sub-Keeps, op_mul-Keeps}
use gmqcc.Fold.Kept.Logic.{
  op_div-Keeps, op_mod-Keeps, op_bits-Keeps, op_shift-Keeps, op_andor-Keeps, op_tern-Keeps,
  op_exp-Keeps, op_lteqgt-Keeps, op_ltgt-Keeps, op_cmp-Keeps, op_bnot-Keeps, op_cross-Keeps,
  op_length-Keeps,
}

module _ {f₀ : Folder} where
  counted-Keeps : (r : Folded) → Keeps f₀ r → Keeps f₀ (counted r)
  counted-Keeps (f, none) k = k
  counted-Keeps (f, some e) k = keeps _ (same_tables f _ refl refl k.state)

  module _ {f : Folder} (h : Extends f₀ f) where
    with_1-Keeps :
        (g : AstValue → Folder → Folded) (a : Option AstValue)
        → ((a : AstValue) → Keeps f₀ (g a f))
        → Keeps f₀ (with_1 g a f)
    with_1-Keeps g none k = keeps _ h
    with_1-Keeps g (some a) k = counted-Keeps (g a f) (k a)

    with_2-Keeps :
        (g : AstValue → AstValue → Folder → Folded) (a b : Option AstValue)
        → ((a b : AstValue) → Keeps f₀ (g a b f))
        → Keeps f₀ (with_2 g a b f)
    with_2-Keeps g a none k = keeps _ h
    with_2-Keeps g a (some b) k = with_1-Keeps (λ a'. g a' b) a (λ a'. k a' b)

    with_3-Keeps :
        (g : AstValue → AstValue → AstValue → Folder → Folded) (a b c : Option AstValue)
        → ((a b c : AstValue) → Keeps f₀ (g a b c f))
        → Keeps f₀ (with_3 g a b c f)
    with_3-Keeps g a b none k = keeps _ h
    with_3-Keeps g a b (some c) k = with_2-Keeps (λ a' b'. g a' b' c) a b (λ a' b'. k a' b' c)

    module _ (m : Arithmetic) (o : Options) (a b c : Option AstValue) where
      fold_op_case-Keeps : (id : Operator) → Keeps f₀ (fold_op_case m o id a b c f)
      unfolding fold_op_case op_bor op_band op_xor op_lshift op_rshift
      fold_op_case-Keeps op_id_neg = with_1-Keeps (op_neg m o) a (λ a. op_neg-Keeps m o h a a a)
      fold_op_case-Keeps op_id_not = with_1-Keeps (op_not m o) a (λ a. op_not-Keeps m o h a a a)
      fold_op_case-Keeps op_id_add = with_2-Keeps (op_add m o) a b (λ a b. op_add-Keeps m o h a b b)
      fold_op_case-Keeps op_id_sub = with_2-Keeps (op_sub m o) a b (λ a b. op_sub-Keeps m o h a b b)
      fold_op_case-Keeps op_id_mul = with_2-Keeps (op_mul m o) a b (λ a b. op_mul-Keeps m o h a b b)
      fold_op_case-Keeps op_id_div = with_2-Keeps (op_div m o) a b (λ a b. op_div-Keeps m o h a b b)
      fold_op_case-Keeps op_id_mod = with_2-Keeps (op_mod m o) a b (λ a b. op_mod-Keeps m o h a b b)
      fold_op_case-Keeps op_id_bor =
          with_2-Keeps (op_bor m o) a b (λ a b. op_bits-Keeps m o h a b b _)
      fold_op_case-Keeps op_id_band =
          with_2-Keeps (op_band m o) a b (λ a b. op_bits-Keeps m o h a b b _)
      fold_op_case-Keeps op_id_xor =
          with_2-Keeps (op_xor m o) a b (λ a b. op_bits-Keeps m o h a b b _)
      fold_op_case-Keeps op_id_lt =
          with_2-Keeps (op_ltgt m o true) a b (λ a b. op_ltgt-Keeps m o h a b b true)
      fold_op_case-Keeps op_id_gt =
          with_2-Keeps (op_ltgt m o false) a b (λ a b. op_ltgt-Keeps m o h a b b false)
      fold_op_case-Keeps op_id_lshift =
          with_2-Keeps (op_lshift m o) a b (λ a b. op_shift-Keeps m o h a b b _)
      fold_op_case-Keeps op_id_rshift =
          with_2-Keeps (op_rshift m o) a b (λ a b. op_shift-Keeps m o h a b b _)
      fold_op_case-Keeps op_id_or =
          with_2-Keeps (op_andor m o true) a b (λ a b. op_andor-Keeps m o h a b b true)
      fold_op_case-Keeps op_id_and =
          with_2-Keeps (op_andor m o false) a b (λ a b. op_andor-Keeps m o h a b b false)
      fold_op_case-Keeps op_id_tern =
          with_3-Keeps (op_tern m o) a b c (λ a b c. op_tern-Keeps m o h a b c)
      fold_op_case-Keeps op_id_exp = with_2-Keeps (op_exp m o) a b (λ a b. op_exp-Keeps m o h a b b)
      fold_op_case-Keeps op_id_lteqgt =
          with_2-Keeps (op_lteqgt m o) a b (λ a b. op_lteqgt-Keeps m o h a b b)
      fold_op_case-Keeps op_id_ne =
          with_2-Keeps (op_cmp m o true) a b (λ a b. op_cmp-Keeps m o h a b b true)
      fold_op_case-Keeps op_id_eq =
          with_2-Keeps (op_cmp m o false) a b (λ a b. op_cmp-Keeps m o h a b b false)
      fold_op_case-Keeps op_id_bnot = with_1-Keeps (op_bnot m o) a (λ a. op_bnot-Keeps m o h a a a)
      fold_op_case-Keeps op_id_cross =
          with_2-Keeps (op_cross m o) a b (λ a b. op_cross-Keeps m o h a b b)
      fold_op_case-Keeps op_id_length =
          with_1-Keeps (op_length m o) a (λ a. op_length-Keeps m o h a a a)
      fold_op_case-Keeps op_id_other = keeps _ (report-Extends _ h)

-- `fold::op` on any operator, operands and options keeps the tables of constants as its constructor
-- makes them, with 0, 1, -1 and 2 in the first four places, with float and vector constants only and
-- no two floats with the same bits, and at most adds constants at their ends.
pub op-Extends :
    (m : Arithmetic) (o : Options) (info : OperInfo) (a b c : Option AstValue) (f : Folder)
    → IsPool f
    → Extends f (op m o info a b c f).0
unfolding op
op-Extends m o info a b c f h =
    let same = Extends_refl h in
    (either_folded (not info.folds) _ _ (keeps _ same) (
      either_folded (info.operands == 3 && is_missing c) _ _ (keeps _ same) (
        either_folded ((info.operands == 2 || info.operands == 3) && is_missing b) _ _
          (keeps _ same)
          (either_folded (ltb 0 info.operands && leb info.operands 3 && is_missing a) _ _
            (keeps _ (report-Extends _ same)) (fold_op_case-Keeps same m o a b c info.id))))).state
