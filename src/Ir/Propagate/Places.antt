-- ===== src/Ir/Propagate/Places.antt =====
-- The places at which the propagation makes the operands of an instruction live.
use gmqcc.Prelude.{
  ℕ, zero, suc, ◌≡◌, ◌⊎◌, refl, sym, subst, ◌∙◌, Bool, true, false, ◌||◌, List, [], ◌∷◌, ◌++◌,
  Option, none, some, ◌==◌, ==_iff, if◌then◌else◌, inl, inr, get_elem?, arith, Bool-cases,
}
use gmqcc.Ir.Life.{lives, set_alive}
use gmqcc.Ir.Life.Ranges.{IsLifeFrom}
use gmqcc.Ir.Life.Alive.{set_alive-lives}
use gmqcc.Ir.Propagate.{
  IrValue, Liveness, Instr, find, put, alive_at, operands, push_new, push_all, of_option,
  read_value, read_all, lock_living, add_living, reads_of, instr_writes, instr_reads, instr_call,
  propagate_instr, propagate_instrs, exits_living, life_propagate, is_call, op_read_write,
}
use gmqcc.Ir.Propagate.Grown.{
  Grown, Grown-refl, Grown-trans, with_living, life_of, alive_at-Grown, add_living-Grown,
  instr_writes-Grown, instr_reads-Grown, instr_call-Grown, propagate_instr-Grown,
  propagate_instrs-Grown,
}

find-append : (xs ys : List ℕ) (v : ℕ) → find (xs ++ ys) v ≡ (find xs v || find ys v)
find-append [] ys v = refl
find-append (x ∷ xs) ys v = ground (arith, find-append xs ys v)

push_new-keeps :
    (w : ℕ) (living : List ℕ) (v : ℕ) → find living v ≡ true → find (push_new w living) v ≡ true
unfolding push_new
push_new-keeps w living v h = ground (arith, find-append living (w ∷ []) v)

push_new-finds : (v : ℕ) (living : List ℕ) → find (push_new v living) v ≡ true
unfolding push_new
push_new-finds v living = ground (arith, find-append living (v ∷ []) v)

push_all-keeps :
    (vs living : List ℕ) (v : ℕ) → find living v ≡ true → find (push_all vs living) v ≡ true
unfolding push_all
push_all-keeps [] living v h = h
push_all-keeps (w ∷ vs) living v h = push_all-keeps vs _ v (push_new-keeps w living v h)

read_all-keeps :
    (values : ℕ → IrValue) (vs living : List ℕ) (v : ℕ)
    → find living v ≡ true
    → find (read_all values vs living) v ≡ true
unfolding read_all read_value
read_all-keeps values [] living v h = h
read_all-keeps values (w ∷ vs) living v h =
    read_all-keeps values vs _ v (push_all-keeps (w ∷ _) living v h)

read_value-finds :
    (values : ℕ → IrValue) (v : ℕ) (living : List ℕ) → find (read_value values v living) v ≡ true
unfolding read_value push_all
read_value-finds values v living =
    push_all-keeps (of_option (values v).memberof ++ (values v).members) (push_new v living) v
      (push_new-finds v living)

read_all-finds :
    (values : ℕ → IrValue) (vs living : List ℕ) (v : ℕ)
    → find vs v ≡ true
    → find (read_all values vs living) v ≡ true
unfolding read_all
read_all-finds values [] living v h = cc h
read_all-finds values (w ∷ vs) living v h = elim (Bool-cases (w == v)) [
  | inl e ↦
      let same : v ≡ w = omega (arith, (==_iff w v).0 e) in
      read_all-keeps values vs _ v (
        subst (λ u. find (read_value values w living) u ≡ true) (sym same)
          (read_value-finds values w living))
  | inr e ↦ read_all-finds values vs _ v (rw e at h)
]

if_living :
    {vs : List ℕ} (b : Bool) (x y : Liveness)
    → x.living ≡ vs
    → y.living ≡ vs
    → (if b then x else y).living ≡ vs
if_living true x y p q = p
if_living false x y p q = q

lock_living-living : (vs : List ℕ) (a : Liveness) → (lock_living vs a).living ≡ a.living
unfolding lock_living
lock_living-living [] a = refl
lock_living-living (v ∷ vs) a =
    lock_living-living vs _ ∙ if_living (a.values v).locked _ _ refl refl

put_self : (values : ℕ → IrValue) (v : ℕ) (x : IrValue) → put values v x v ≡ x
put_self values v x = rw ((==_iff v v).1 refl)

alive_at-lives :
    (v s : ℕ) (a : Liveness)
    → IsLifeFrom 0 (life_of a v)
    → lives (life_of (alive_at v s a) v) s ≡ true
unfolding alive_at
alive_at-lives v s a h =
    let place : lives (set_alive s (life_of a v)).0 s ≡ true =
      rw ((set_alive-lives s (life_of a v) h).1 s, (==_iff s s).1 refl) in
    subst (λ z. lives z.life s ≡ true) (sym (put_self a.values v _)) place

add_living-lives :
    (vs : List ℕ) (s : ℕ) (a : Liveness) (v : ℕ)
    → find vs v ≡ true
    → IsLifeFrom 0 (life_of a v)
    → lives (life_of (add_living vs s a) v) s ≡ true
unfolding add_living
add_living-lives [] s a v f h = cc f
add_living-lives (w ∷ vs) s a v f h = elim (Bool-cases (w == v)) [
  | inl e ↦
      let same : v ≡ w = omega (arith, (==_iff w v).0 e) in
      (add_living-Grown vs s (alive_at w s a)).grows v s ((alive_at-Grown w s a).ordered v h) (
        subst (λ u. lives (life_of (alive_at w s a) u) s ≡ true) (sym same)
          (alive_at-lives w s a (subst (λ u. IsLifeFrom 0 (life_of a u)) same h)))
  | inr e ↦ add_living-lives vs s _ v (rw e at f) ((alive_at-Grown w s a).ordered v h)
]

pub operands_same :
    (f g : ℕ → IrValue) (mask o : ℕ) (ops : List (Option ℕ))
    → ((v : ℕ) → (g v).store ≡ (f v).store)
    → operands g mask o ops ≡ operands f mask o ops
unfolding operands
operands_same f g mask o [] h = refl
operands_same f g mask o (none ∷ ops) h = operands_same f g mask (suc o) ops h
operands_same f g mask o (some v ∷ ops) h = rw (h v, operands_same f g mask (suc o) ops h)

call_keeps :
    (i : Instr) (a : Liveness) (v : ℕ)
    → find a.living v ≡ true
    → find (instr_call i a).living v ≡ true
unfolding instr_call
call_keeps i a v f = read_all-keeps _ i.params _ v (
    subst (λ vs. find vs v ≡ true)
      (sym (if_living (is_call i.opcode) _ _ (lock_living-living a.living a) refl)) f)

-- An operand that is read lives at the instruction's place.
instr_lives :
    (i : Instr) (a : Liveness) (v : ℕ)
    → find (reads_of a.values i) v ≡ true
    → IsLifeFrom 0 (life_of a v)
    → lives (life_of (propagate_instr i a) v) i.eid ≡ true
unfolding propagate_instr instr_reads instr_call
instr_lives i a v f h =
    let w = instr_writes i a in
    let g = instr_writes-Grown i a in
    let r = instr_reads-Grown i w in
    let c = instr_call-Grown i (instr_reads i w) in
    let f' : find (reads_of w.values i) v ≡ true =
      subst (λ vs. find vs v ≡ true)
        (sym (operands_same a.values w.values (op_read_write i.opcode).0 0 i.ops g.stores)) f in
    add_living-lives _ i.eid _ v
      (call_keeps i (instr_reads i w) v
        (read_all-keeps w.values i.phi _ v (read_all-finds w.values _ w.living v f')))
      (c.ordered v (r.ordered v (g.ordered v h)))

pub some_injective : {A : Type 0} {x y : A} → some x ≡ some y → x ≡ y
some_injective e = cc e

instrs_live :
    (is : List Instr) (n : ℕ) (i : Instr) (a : Liveness) (v : ℕ)
    → get_elem? is n ≡ some i
    → find (reads_of a.values i) v ≡ true
    → IsLifeFrom 0 (life_of a v)
    → lives (life_of (propagate_instrs is a) v) i.eid ≡ true
unfolding propagate_instrs
instrs_live [] n i a v e f h = cc e
instrs_live (j ∷ is) zero i a v e f h =
    let b = propagate_instrs is a in
    let g = propagate_instrs-Grown is a in
    let same : i ≡ j = some_injective (sym e) in
    let f' : find (reads_of b.values i) v ≡ true =
      subst (λ vs. find vs v ≡ true)
        (sym (operands_same a.values b.values (op_read_write i.opcode).0 0 i.ops g.stores)) f in
    subst (λ k. lives (life_of (propagate_instr k b) v) i.eid ≡ true) same
      (instr_lives i b v f' (g.ordered v h))
instrs_live (j ∷ is) (suc n) i a v e f h =
    (propagate_instr-Grown j (propagate_instrs is a)).grows v i.eid
      ((propagate_instrs-Grown is a).ordered v h) (instrs_live is n i a v e f h)

-- Where a pass reports no change, it made none.
pub unchanged :
    {a b : Liveness} → Grown a b → (b.changed ≡ true) ⊎ ((u : ℕ) → b.values u ≡ a.values u)
unchanged {b = b} g = elim (Bool-cases b.changed) [ inl e ↦ inl e | inr e ↦ inr (g.reported e).1 ]

pub life_propagate-Grown :
    (exits : List (List ℕ)) (is : List Instr) (entry_id : ℕ) (a : Liveness)
    → Grown a (life_propagate exits is entry_id a)
unfolding life_propagate
life_propagate-Grown exits is entry_id a =
    let start = record a { living = exits_living exits [] } in
    let s = propagate_instrs is start in
    Grown-trans (with_living (exits_living exits []) (Grown-refl a))
      (Grown-trans (propagate_instrs-Grown is start) (add_living-Grown s.living entry_id s))

-- A pass over a block, on values with ordered ranges: each local that an instruction of the block
-- reads as an operand lives at the place of the instruction, its ranges are ordered, and the pass
-- reports a change or leaves all values as they were.
pub life_propagate-lives :
    (exits : List (List ℕ)) (is : List Instr) (entry_id : ℕ) (a : Liveness) (n v : ℕ) (i : Instr)
    → ((u : ℕ) → IsLifeFrom 0 (a.values u).life)
    → get_elem? is n ≡ some i
    → find (reads_of a.values i) v ≡ true
    → (lives ((life_propagate exits is entry_id a).values v).life i.eid ≡ true)
      × IsLifeFrom 0 ((life_propagate exits is entry_id a).values v).life
      × (((life_propagate exits is entry_id a).changed ≡ true)
          ⊎ ((u : ℕ) → (life_propagate exits is entry_id a).values u ≡ a.values u))
unfolding life_propagate
life_propagate-lives exits is entry_id a n v i h e f =
    let start = record a { living = exits_living exits [] } in
    let s = propagate_instrs is start in
    let g = propagate_instrs-Grown is start in
    let k = add_living-Grown s.living entry_id s in
    (
      k.grows v i.eid (g.ordered v (h v)) (instrs_live is n i start v e f (h v)),
      k.ordered v (g.ordered v (h v)),
      unchanged (life_propagate-Grown exits is entry_id a),
    )
