-- ===== src/Ir/Propagate/Rounds.antt =====
-- A round of `ir_function_calculate_liferanges` of ir.cpp: the body of its loop, which walks the
-- blocks of a function from the last to the first. A pointer to a block is its number.
use gmqcc.Prelude.{
  ℕ, zero, suc, ◌≡◌, ◌⊎◌, sym, subst, true, false, List, [], ◌∷◌, some, ◌==◌, if◌then◌else◌,
  get_elem?,
}
use gmqcc.Ir.Life.{lives}
use gmqcc.Ir.Life.Ranges.{IsLifeFrom}
use gmqcc.Ir.Propagate.{Liveness, Instr, find, reads_of, life_propagate, op_read_write}
use gmqcc.Ir.Propagate.Grown.{Grown, Grown-refl, Grown-trans, life_of}
use gmqcc.Ir.Propagate.Places.{
  life_propagate-lives, life_propagate-Grown, operands_same, some_injective, unchanged,
}

pub record Block : Type 0 where
  pub instrs : List Instr
  pub exits : List ℕ
  pub entry_id : ℕ

-- `living_of` is `m_living` of each block.
pub record Round : Type 0 where
  pub liveness : Liveness
  pub living_of : ℕ → List ℕ

unfoldable pub set_living : ℕ → List ℕ → (ℕ → List ℕ) → ℕ → List ℕ
set_living n living living_of k = if k == n then living else living_of k

unfoldable pub living_at : (ℕ → List ℕ) → List ℕ → List (List ℕ)
living_at living_of [] = []
living_at living_of (n ∷ ns) = living_of n ∷ living_at living_of ns

-- The block's own vector is cleared before the exits are read, which may lead to the block itself.
unfoldable pub propagate_block : ℕ → Block → Round → Round
propagate_block n b r =
    let cleared = set_living n [] r.living_of in
    let s = life_propagate (living_at cleared b.exits) b.instrs b.entry_id r.liveness in
    record { liveness = s; living_of = set_living n s.living cleared }

-- The blocks from number `n` on, from the last to the first.
unfoldable pub propagate_blocks : ℕ → List Block → Round → Round
propagate_blocks n [] r = r
propagate_blocks n (b ∷ bs) r = propagate_block n b (propagate_blocks (suc n) bs r)

unfoldable pub liferanges_round : List Block → Round → Round
liferanges_round bs r =
    propagate_blocks 0 bs (record r { liveness = record r.liveness { changed = false } })

propagate_block-Grown :
    (n : ℕ) (b : Block) (r : Round) → Grown r.liveness (propagate_block n b r).liveness
unfolding propagate_block
propagate_block-Grown n b r =
    life_propagate-Grown (living_at (set_living n [] r.living_of) b.exits) b.instrs b.entry_id
      r.liveness

propagate_blocks-Grown :
    (n : ℕ) (bs : List Block) (r : Round) → Grown r.liveness (propagate_blocks n bs r).liveness
unfolding propagate_blocks
propagate_blocks-Grown n [] r = Grown-refl r.liveness
propagate_blocks-Grown n (b ∷ bs) r =
    Grown-trans (propagate_blocks-Grown (suc n) bs r)
      (propagate_block-Grown n b (propagate_blocks (suc n) bs r))

reads_Grown : {a b : Liveness} (i : Instr) → Grown a b → reads_of b.values i ≡ reads_of a.values i
reads_Grown {a} {b} i g =
    operands_same a.values b.values (op_read_write i.opcode).0 0 i.ops g.stores

block_lives :
    (k : ℕ) (b : Block) (r : Round) (n v : ℕ) (i : Instr)
    → ((u : ℕ) → IsLifeFrom 0 (life_of r.liveness u))
    → get_elem? b.instrs n ≡ some i
    → find (reads_of r.liveness.values i) v ≡ true
    → lives (life_of (propagate_block k b r).liveness v) i.eid ≡ true
unfolding propagate_block
block_lives k b r n v i h e f =
    (life_propagate-lives (living_at (set_living k [] r.living_of) b.exits) b.instrs b.entry_id
      r.liveness n v i h e f).0

blocks_live :
    (k : ℕ) (bs : List Block) (r : Round) (m n v : ℕ) (b : Block) (i : Instr)
    → ((u : ℕ) → IsLifeFrom 0 (life_of r.liveness u))
    → get_elem? bs m ≡ some b
    → get_elem? b.instrs n ≡ some i
    → find (reads_of r.liveness.values i) v ≡ true
    → lives (life_of (propagate_blocks k bs r).liveness v) i.eid ≡ true
unfolding propagate_blocks
blocks_live k [] r m n v b i h d e f = cc d
blocks_live k (c ∷ bs) r zero n v b i h d e f =
    let rest = propagate_blocks (suc k) bs r in
    let g = propagate_blocks-Grown (suc k) bs r in
    let same : b ≡ c = some_injective (sym d) in
    block_lives k c rest n v i (λ u. g.ordered u (h u))
      (subst (λ x. get_elem? x.instrs n ≡ some i) same e)
      (subst (λ vs. find vs v ≡ true) (sym (reads_Grown i g)) f)
blocks_live k (c ∷ bs) r (suc m) n v b i h d e f =
    let rest = propagate_blocks (suc k) bs r in
    (propagate_block-Grown k c rest).grows v i.eid
      ((propagate_blocks-Grown (suc k) bs r).ordered v (h v))
      (blocks_live (suc k) bs r m n v b i h d e f)

-- A round over all blocks of a function, on values with ordered ranges: each local that an
-- instruction of any of the blocks reads as an operand lives at the place of the instruction, its
-- ranges are ordered, and the round reports a change or leaves all values as they were.
pub liferanges_round-lives :
    (bs : List Block) (r : Round) (m n v : ℕ) (b : Block) (i : Instr)
    → ((u : ℕ) → IsLifeFrom 0 (r.liveness.values u).life)
    → get_elem? bs m ≡ some b
    → get_elem? b.instrs n ≡ some i
    → find (reads_of r.liveness.values i) v ≡ true
    → (lives ((liferanges_round bs r).liveness.values v).life i.eid ≡ true)
      × IsLifeFrom 0 ((liferanges_round bs r).liveness.values v).life
      × (((liferanges_round bs r).liveness.changed ≡ true)
          ⊎ ((u : ℕ) → (liferanges_round bs r).liveness.values u ≡ r.liveness.values u))
unfolding liferanges_round
liferanges_round-lives bs r m n v b i h d e f =
    let start = record r { liveness = record r.liveness { changed = false } } in
    let g = propagate_blocks-Grown 0 bs start in
    (blocks_live 0 bs start m n v b i h d e f, g.ordered v (h v), unchanged g)
