-- ===== src/Fold/Branch.antt =====
-- The branches for which `fold::cond` has code generated.
use gmqcc.Prelude.{ℕ, ◌%◌, ◌^◌, ◌≡◌, true, not, ◌&&◌, ◌==◌, arith}
use gmqcc.Vm.Step.{Floats, is_true}
use gmqcc.Fold.{AstValue, Options, immvalue_float, fold_can_1, is_float}
use gmqcc.Fold.Select.{Branches, cond}

-- Of a constant float, with the optimisation on, `fold::cond` has code generated for the branch that
-- is there and that the machine's jumps on the word of the float take, and for no other branch. The
-- machine's comparison takes both 0 and -0, and no other word, as equal to 0.
pub cond-is_true :
    (fl : Floats) (o : Options) (v : AstValue) (branch : Branches)
    → ((w : ℕ) → fl.eq w 0 ≡ (w % 2 ^ 31 == 0))
    → o.const_fold_dce ≡ true
    → is_float v.vtype ≡ true
    → fold_can_1 v ≡ true
    → ((cond fl o v branch).on_true ≡ (is_true (immvalue_float v) && branch.on_true))
      × ((cond fl o v branch).on_false ≡ (not (is_true (immvalue_float v)) && branch.on_false))
unfolding cond
cond-is_true fl o v branch zero dce f can = rw (dce, f, can, zero (immvalue_float v)) (ground arith)
