-- ===== src/Vm/Frames/Copy.antt =====
-- The copies that a call makes of its arguments.
use native.Mathlib.Nat.{add-zero}
use gmqcc.Prelude.{
  ℕ, zero, suc, ◌+◌, ◌*◌, ◌≤◌, ◌<◌, ◌≡◌, refl, List, [], ◌∷◌, some, arith, length, get_elem?, set,
  ◌⊎◌, inl, ◌∙◌, sym, lt→ltb, length-set, get_elem?-set_self, get_elem?-set_ne,
}
use gmqcc.Vm.Words.{write?}
use gmqcc.Vm.Words.Blocks.{get_elem?-some}
use gmqcc.Vm.Frames.{ofs_parm0, copy_words, copy_params}

-- `g'` is `g` with the `n` words from `src` on copied to `dst`.
pub record IsCopied (n src dst : ℕ) (g g' : List ℕ) : Type 0 where
  pub same_length : length g' ≡ length g
  pub moved : (k : ℕ) → k < n → get_elem? g' (dst + k) ≡ get_elem? g (src + k)
  pub outside : (j : ℕ) → (j < dst) ⊎ (dst + n ≤ j) → get_elem? g' j ≡ get_elem? g j

-- Where the source lies before the target, the copy is defined.
copy_words-IsCopied :
    (n src dst : ℕ) (g : List ℕ)
    → src + n ≤ dst
    → dst + n ≤ length g
    → (g' : List ℕ) × (copy_words n src dst g ≡ some g') × IsCopied n src dst g g'
unfolding copy_words write?
copy_words-IsCopied zero src dst g p q = (
  g,
  refl,
  record { same_length = refl; moved = λ k r. absurd (omega arith); outside = λ j r. refl },
)
copy_words-IsCopied (suc n) src dst g p q =
    let here = get_elem?-some g src (omega arith) in
    let in_range : dst < length g = omega arith in
    let g₁ = set g dst here.0 in
    let r =
      copy_words-IsCopied n (suc src) (suc dst) g₁ (omega arith)
        (omega (arith, length-set g dst here.0)) in
    (
      r.0,
      rw (here.1, lt→ltb dst (length g) in_range) r.1,
      record {
        same_length = r.2.same_length ∙ length-set g dst here.0;
        moved = elim [
          | zero ↦ λ k<.
              rw (add-zero dst, add-zero src)
                (r.2.outside dst (inl (omega arith))
                  ∙ get_elem?-set_self g dst here.0 in_range
                  ∙ sym here.1)
          | suc k ↦ λ k<.
              let there : dst + suc k ≡ suc dst + k = omega arith in
              let from : src + suc k ≡ suc src + k = omega arith in
              rw (there, from) (r.2.moved k (omega arith) ∙ get_elem?-set_ne g here.0 (omega arith))
        ];
        outside = λ j s. r.2.outside j (ground arith) ∙ get_elem?-set_ne g here.0 (ground arith);
      },
    )

abbrev pub sum : List ℕ → ℕ
sum [] = 0
sum (x ∷ xs) = x + sum xs

-- The parameters `sizes`, counted from `p`, stand in `g'` from `pos` on as `g` has them.
abbrev pub Passed : ℕ → List ℕ → ℕ → List ℕ → List ℕ → Type 0
Passed p [] pos g g' = Unit
Passed p (n ∷ sizes) pos g g' =
    ((k : ℕ) → k < n → get_elem? g' (pos + k) ≡ get_elem? g (ofs_parm0 + 3 * p + k))
    × Passed (suc p) sizes (pos + n) g g'

abbrev pub AtMostThree : List ℕ → Type 0
AtMostThree [] = Unit
AtMostThree (n ∷ sizes) = (n ≤ 3) × AtMostThree sizes

pub record AreCopied (p : ℕ) (sizes : List ℕ) (pos : ℕ) (g g' : List ℕ) : Type 0 where
  pub same_length : length g' ≡ length g
  pub passed : Passed p sizes pos g g'
  pub outside : (j : ℕ) → (j < pos) ⊎ (pos + sum sizes ≤ j) → get_elem? g' j ≡ get_elem? g j

-- Reading the parameters from globals that agree before `pos`.
Passed-agree :
    (p : ℕ) (sizes : List ℕ) (pos lim : ℕ) (g g₁ g' : List ℕ)
    → AtMostThree sizes
    → ofs_parm0 + 3 * (p + length sizes) ≤ lim
    → ((j : ℕ) → j < lim → get_elem? g₁ j ≡ get_elem? g j)
    → Passed p sizes pos g₁ g'
    → Passed p sizes pos g g'
Passed-agree p [] pos lim g g₁ g' t b same h = tt
Passed-agree p (n ∷ sizes) pos lim g g₁ g' t b same h = (
  λ k q. h.0 k q ∙ same (ofs_parm0 + 3 * p + k) (omega arith),
  Passed-agree (suc p) sizes (pos + n) lim g g₁ g' t.1 (omega arith) same h.1,
)

pub copy_params-AreCopied :
    (p : ℕ) (sizes : List ℕ) (pos : ℕ) (g : List ℕ)
    → AtMostThree sizes
    → ofs_parm0 + 3 * (p + length sizes) ≤ pos
    → pos + sum sizes ≤ length g
    → (g' : List ℕ) × (copy_params p sizes pos g ≡ some g') × AreCopied p sizes pos g g'
unfolding copy_params
copy_params-AreCopied p [] pos g t b q =
    (g, refl, record { same_length = refl; passed = tt; outside = λ j r. refl })
copy_params-AreCopied p (n ∷ sizes) pos g t b q =
    let r = copy_words-IsCopied n (ofs_parm0 + 3 * p) pos g (omega arith) (omega arith) in
    let s =
      copy_params-AreCopied (suc p) sizes (pos + n) r.0 t.1 (omega arith)
        (omega (arith, r.2.same_length)) in
    (
      s.0,
      rw (r.1) s.1,
      record {
        same_length = s.2.same_length ∙ r.2.same_length;
        passed = (
          λ k k<. s.2.outside (pos + k) (inl (omega arith)) ∙ r.2.moved k k<,
          Passed-agree (suc p) sizes (pos + n) pos g r.0 s.0 t.1 (omega arith)
              (λ j l. r.2.outside j (inl l)) s.2.passed,
        );
        outside = λ j u. s.2.outside j (ground arith) ∙ r.2.outside j (ground arith);
      },
    )
