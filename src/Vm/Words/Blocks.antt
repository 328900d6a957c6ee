-- ===== src/Vm/Words/Blocks.antt =====
-- Blocks of words: a write within the bounds is defined, and changes the block and nothing else.
use native.Mathlib.Nat.{add-zero}
use gmqcc.Prelude.{
  sym, ℕ, zero, suc, ◌+◌, ◌≤◌, ◌<◌, ◌≡◌, refl, List, [], ◌∷◌, some, arith, length, get_elem?, set,
  length-set, get_elem?-set_self, get_elem?-set_ne, ◌⊎◌, inl, ◌∙◌, lt→ltb,
}
use gmqcc.Vm.Words.{read_block, write_block}

-- `m'` is `m` with the words `ws` from `i` on.
pub record IsWritten (m : List ℕ) (i : ℕ) (ws m' : List ℕ) : Type 0 where
  pub same_length : length m' ≡ length m
  pub inside : (k w : ℕ) → get_elem? ws k ≡ some w → get_elem? m' (i + k) ≡ some w
  pub outside : (j : ℕ) → (j < i) ⊎ (i + length ws ≤ j) → get_elem? m' j ≡ get_elem? m j

IsWritten-cons :
    (m : List ℕ) (i w : ℕ) (ws m' : List ℕ)
    → i < length m
    → IsWritten (set m i w) (suc i) ws m'
    → IsWritten m i (w ∷ ws) m'
IsWritten-cons m i w ws m' p h = record {
  same_length = h.same_length ∙ length-set m i w;
  inside = elim [
    | zero ↦ λ v e.
        let at : get_elem? m' i ≡ some w =
          h.outside i (inl (omega arith)) ∙ get_elem?-set_self m i w p in
        rw (add-zero i) (at ∙ e)
    | suc k ↦ λ v e. let there : i + suc k ≡ suc i + k = omega arith in rw there (h.inside k v e)
  ];
  outside = λ j q. h.outside j (ground arith) ∙ get_elem?-set_ne m w (ground arith);
}

-- Within the bounds `write_block` is defined.
pub write_block-IsWritten :
    (m : List ℕ) (i : ℕ) (ws : List ℕ)
    → i + length ws ≤ length m
    → (m' : List ℕ) × (write_block m i ws ≡ some m') × IsWritten m i ws m'
unfolding write_block
write_block-IsWritten m i [] p =
    (m, refl, record { same_length = refl; inside = λ k w e. cc; outside = λ j q. refl })
write_block-IsWritten m i (w ∷ ws) p =
    let below : i < length m = omega arith in
    let r =
      write_block-IsWritten (set m i w) (suc i) ws (let e = length-set m i w in omega (arith, e)) in
    (r.0, rw (lt→ltb i (length m) below) r.1, IsWritten-cons m i w ws r.0 below r.2)

-- `ws` are the words of `m` from `i` on.
pub record IsBlock (m : List ℕ) (i n : ℕ) (ws : List ℕ) : Type 0 where
  pub count : length ws ≡ n
  pub at : (k : ℕ) → k < n → get_elem? ws k ≡ get_elem? m (i + k)

pub get_elem?-some {ℓ} :
    {A : Type ℓ} (m : List A) (i : ℕ) → i < length m → (w : A) × (get_elem? m i ≡ some w)
get_elem?-some [] i p = absurd (omega arith)
get_elem?-some (x ∷ m) zero p = (x, refl)
get_elem?-some (x ∷ m) (suc i) p = get_elem?-some m i (omega arith)

pub read_block-IsBlock :
    (n : ℕ) (m : List ℕ) (i : ℕ)
    → i + n ≤ length m
    → (ws : List ℕ) × (read_block n m i ≡ some ws) × IsBlock m i n ws
unfolding read_block
read_block-IsBlock zero m i p =
    ([], refl, record { count = refl; at = λ k q. absurd (omega arith) })
read_block-IsBlock (suc n) m i p =
    let here = get_elem?-some m i (omega arith) in
    let r = read_block-IsBlock n m (suc i) (omega arith) in
    (
      here.0 ∷ r.0,
      rw (here.1, r.1),
      record {
        count = omega (arith, r.2.count);
        at = elim [
          | zero ↦ λ q. rw (add-zero i) (sym here.1)
          | suc k ↦ λ q.
              let there : i + suc k ≡ suc i + k = omega arith in rw there (r.2.at k (omega arith))
        ];
      },
    )
