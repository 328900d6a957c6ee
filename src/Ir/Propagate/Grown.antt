-- ===== src/Ir/Propagate/Grown.antt =====
-- What the propagation may do to the values: their ranges grow, and change only where it is reported.
use gmqcc.Prelude.{
  ℕ, ◌+◌, ◌≡◌, refl, sym, subst, ◌∙◌, ap, Bool, true, false, not, ◌&&◌, ◌||◌, List, [], ◌∷◌, Option,
  none, some, ◌==◌, ==_iff, if◌then◌else◌, inl, inr, arith, Bool-cases,
}
use gmqcc.Ir.Life.{LifeEntry, lives, set_alive, set_past, set_between, set_after, extend_or_insert}
use gmqcc.Ir.Life.Ranges.{IsLifeFrom}
use gmqcc.Ir.Life.Alive.{set_alive-lives}
use gmqcc.Ir.Propagate.{
  IrValue, Liveness, Instr, find, find_any, put, alive_at, end_life, end_members, end_vector,
  write_value, write_all, alive_behind, extend_source, extend_if, operand, lock_living, add_living,
  instr_writes, instr_reads, instr_call, propagate_instr, propagate_instrs, is_call, writes_of,
}

abbrev pub life_of : Liveness → ℕ → List LifeEntry
life_of st v = (st.values v).life

pub record Grown (a b : Liveness) : Type 0 where
  pub ordered : (v : ℕ) → IsLifeFrom 0 (life_of a v) → IsLifeFrom 0 (life_of b v)
  pub grows :
      (v x : ℕ)
      → IsLifeFrom 0 (life_of a v)
      → lives (life_of a v) x ≡ true
      → lives (life_of b v) x ≡ true
  pub stores : (v : ℕ) → (b.values v).store ≡ (a.values v).store
  pub reported : b.changed ≡ false → (a.changed ≡ false) × ((v : ℕ) → b.values v ≡ a.values v)

pub Grown-refl : (a : Liveness) → Grown a a
Grown-refl a = record {
  ordered = λ v h. h;
  grows = λ v x h k. k;
  stores = λ v. refl;
  reported = λ h. (h, λ v. refl);
}

pub Grown-trans : {a b c : Liveness} → Grown a b → Grown b c → Grown a c
Grown-trans g h = record {
  ordered = λ v k. h.ordered v (g.ordered v k);
  grows = λ v x k m. h.grows v x (g.ordered v k) (g.grows v x k m);
  stores = λ v. h.stores v ∙ g.stores v;
  reported = λ k. let (p, q) = h.reported k in let (p', q') = g.reported p in (p', λ v. q v ∙ q' v);
}

-- Other vectors of living values.
pub with_living :
    {a b : Liveness} (living : List ℕ) → Grown a b → Grown a (record b { living = living })
with_living living g = record {
  ordered = g.ordered;
  grows = g.grows;
  stores = g.stores;
  reported = g.reported;
}

set_past-false :
    (s : ℕ) (b : LifeEntry) (l : List LifeEntry)
    → (set_past s b l).1 ≡ false
    → (set_past s b l).0 ≡ b ∷ l
unfolding set_past set_between set_after extend_or_insert
set_past-false s b [] h = ground arith
set_past-false s b (e ∷ es) h = ground (arith, set_past-false s e es)

set_alive-false : (s : ℕ) (l : List LifeEntry) → (set_alive s l).1 ≡ false → (set_alive s l).0 ≡ l
unfolding set_alive extend_or_insert
set_alive-false s [] h = cc h
set_alive-false s (e ∷ es) h = ground (arith, set_past-false s e es)

or_false : (a b : Bool) → (a || b) ≡ false → (a ≡ false) × (b ≡ false)
or_false true b h = cc h
or_false false b h = (refl, h)

or_right : {c : Bool} (a b : Bool) → c ≡ (a || b) → b ≡ true → c ≡ true
or_right a b e h = rw (e, h) (ground arith)

-- What holds of the value that is stored, and of all before, holds of all.
put_lem :
    (P : ℕ → IrValue → Type 0) (values : ℕ → IrValue) (v : ℕ) (x : IrValue)
    → P v x
    → ((u : ℕ) → P u (values u))
    → (u : ℕ) → P u (put values v x u)
put_lem P values v x p q u = elim (Bool-cases (u == v)) [
  | inl e ↦
      let same : u ≡ v = omega (arith, (==_iff u v).0 e) in rw e (subst (λ w. P w x) (sym same) p)
  | inr e ↦ rw e (q u)
]

-- The ranges of one value take in a place.
pub alive_at-Grown : (v s : ℕ) (a : Liveness) → Grown a (alive_at v s a)
unfolding alive_at
alive_at-Grown v s a =
    let r = set_alive s (life_of a v) in
    let y = record (a.values v) { life = r.0 } in
    record {
      ordered =
          put_lem (λ u x. IsLifeFrom 0 (life_of a u) → IsLifeFrom 0 x.life) a.values v y
            (λ h. (set_alive-lives s (life_of a v) h).0) (λ u h. h);
      grows = λ u x.
          put_lem
            (λ w z.
              IsLifeFrom 0 (life_of a w) → lives (life_of a w) x ≡ true → lives z.life x ≡ true)
            a.values v y (λ h k. or_right _ _ ((set_alive-lives s (life_of a v) h).1 x) k)
            (λ w h k. k) u;
      stores = put_lem (λ u x. x.store ≡ (a.values u).store) a.values v y refl (λ u. refl);
      reported = λ h.
          let (p, q) = or_false a.changed _ h in
          (
            p,
            put_lem (λ u x. x ≡ a.values u) a.values v y
                (ap (λ z. record (a.values v) { life = z }) (set_alive-false s (life_of a v) q))
                (λ u. refl),
          );
    }

branch_Grown :
    {a : Liveness} (b : Bool) (x y : Liveness)
    → Grown a x
    → Grown a y
    → Grown a (if b then x else y)
branch_Grown true x y p q = p
branch_Grown false x y p q = q

end_life-Grown : (v eid : ℕ) (a : Liveness) → Grown a (end_life v eid a)
unfolding end_life
end_life-Grown v eid a = with_living _ (alive_at-Grown v eid a)

end_members-Grown : (ms : List ℕ) (eid : ℕ) (a : Liveness) → Grown a (end_members ms eid a)
unfolding end_members
end_members-Grown [] eid a = Grown-refl a
end_members-Grown (m ∷ ms) eid a =
    Grown-trans (branch_Grown (find a.living m) _ _ (end_life-Grown m eid a) (Grown-refl a))
      (end_members-Grown ms eid _)

end_vector-Grown : (p : Option ℕ) (eid : ℕ) (a : Liveness) → Grown a (end_vector p eid a)
unfolding end_vector
end_vector-Grown none eid a = Grown-refl a
end_vector-Grown (some p) eid a =
    branch_Grown (not (find_any a.living (a.values p).members) && find a.living p) _ _
      (end_life-Grown p eid a) (Grown-refl a)

write_all-Grown : (vs : List ℕ) (eid : ℕ) (a : Liveness) → Grown a (write_all vs eid a)
unfolding write_all write_value
write_all-Grown [] eid a = Grown-refl a
write_all-Grown (v ∷ vs) eid a =
    Grown-trans
      (Grown-trans (Grown-trans (end_life-Grown v eid a) (end_members-Grown _ eid _))
        (end_vector-Grown _ eid _))
      (write_all-Grown vs eid _)

alive_behind-Grown : (p : Option ℕ) (s : ℕ) (a : Liveness) → Grown a (alive_behind p s a)
unfolding alive_behind
alive_behind-Grown none s a = Grown-refl a
alive_behind-Grown (some v) s a = alive_at-Grown v s a

extend_source-Grown : (p : Option ℕ) (s : ℕ) (a : Liveness) → Grown a (extend_source p s a)
unfolding extend_source
extend_source-Grown none s a = Grown-refl a
extend_source-Grown (some v) s a = Grown-trans (alive_at-Grown v s a) (alive_behind-Grown _ s _)

extend_if-Grown : (b : Bool) (n : ℕ) (i : Instr) (a : Liveness) → Grown a (extend_if b n i a)
unfolding extend_if
extend_if-Grown false n i a = Grown-refl a
extend_if-Grown true n i a = extend_source-Grown (operand n i.ops) (i.eid + 1) a

lock_living-Grown : (vs : List ℕ) (a : Liveness) → Grown a (lock_living vs a)
unfolding lock_living
lock_living-Grown [] a = Grown-refl a
lock_living-Grown (v ∷ vs) a =
    Grown-trans (branch_Grown (a.values v).locked _ _ (Grown-refl a) locked)
      (lock_living-Grown vs _)
  where
    locked : Grown a (record a {
      values = put a.values v (record (a.values v) { locked = true });
      changed = true;
    })
    locked = record {
      ordered =
          put_lem (λ u x. IsLifeFrom 0 (life_of a u) → IsLifeFrom 0 x.life) a.values v _ (λ h. h)
            (λ u h. h);
      grows = λ u x.
          put_lem
            (λ w z.
              IsLifeFrom 0 (life_of a w) → lives (life_of a w) x ≡ true → lives z.life x ≡ true)
            a.values v _ (λ h k. k) (λ w h k. k) u;
      stores = put_lem (λ u x. x.store ≡ (a.values u).store) a.values v _ refl (λ u. refl);
      reported = λ h. cc h;
    }

pub add_living-Grown : (vs : List ℕ) (eid : ℕ) (a : Liveness) → Grown a (add_living vs eid a)
unfolding add_living
add_living-Grown [] eid a = Grown-refl a
add_living-Grown (v ∷ vs) eid a = Grown-trans (alive_at-Grown v eid a) (add_living-Grown vs eid _)

pub instr_writes-Grown : (i : Instr) (a : Liveness) → Grown a (instr_writes i a)
unfolding instr_writes
instr_writes-Grown i a =
    Grown-trans
      (Grown-trans (write_all-Grown (writes_of a.values i) i.eid a) (extend_if-Grown _ 2 i _))
      (extend_if-Grown _ 1 i _)

pub instr_reads-Grown : (i : Instr) (a : Liveness) → Grown a (instr_reads i a)
unfolding instr_reads
instr_reads-Grown i a = with_living _ (Grown-refl a)

pub instr_call-Grown : (i : Instr) (a : Liveness) → Grown a (instr_call i a)
unfolding instr_call
instr_call-Grown i a =
    with_living _
      (branch_Grown (is_call i.opcode) _ _ (lock_living-Grown a.living a) (Grown-refl a))

-- An instruction, with `a` before its reads and the values that live behind them.
pub propagate_instr-Grown : (i : Instr) (a : Liveness) → Grown a (propagate_instr i a)
unfolding propagate_instr
propagate_instr-Grown i a =
    Grown-trans
      (Grown-trans (Grown-trans (instr_writes-Grown i a) (instr_reads-Grown i _))
        (instr_call-Grown i _))
      (add_living-Grown _ i.eid _)

pub propagate_instrs-Grown : (is : List Instr) (a : Liveness) → Grown a (propagate_instrs is a)
unfolding propagate_instrs
propagate_instrs-Grown [] a = Grown-refl a
propagate_instrs-Grown (i ∷ is) a =
    Grown-trans (propagate_instrs-Grown is a) (propagate_instr-Grown i _)
