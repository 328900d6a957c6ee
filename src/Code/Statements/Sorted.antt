-- ===== src/Code/Statements/Sorted.antt =====
-- The statement that is pushed and the given one, on the virtual machine.
use mathlib.Core.Option.{some-injective}
use gmqcc.Prelude.{
  ℕ, ◌<◌, lt→ltb, ◌≡◌, refl, sym, subst, Bool, true, false, ◌&&◌, List, [], ◌∷◌, Option, none, some,
  ltb, ◌==◌, if◌then◌else◌, Bool-cases, inl, inr, ==_iff, get_elem?, ◌∙◌,
}
use gmqcc.Vm.State.{Statement}
use gmqcc.Vm.Words.{◌>>=◌}
use gmqcc.Vm.Opcodes.{decode}
use gmqcc.Vm.Access.{load_word, store_word}
use gmqcc.Vm.Step.{
  store_words, scale_vector, Floats, Builtins, Machine, Outcome, binary, put_c, of_bool,
}
use gmqcc.Vm.Exec.{execute}
use gmqcc.Code.Statements.{
  one_of, loads, stores, storeps, commutative, load_f, store_f, storep_f, typeless, pair_of,
  swap_pair, sorted_statement, Flags, rewrite_statement, add_f, mul_fv, mul_vf, lt, gt, le, ge,
}

-- A property of all labels of a group holds of each number in it.
abbrev AllOf : (ℕ → Type 0) → List ℕ → Type 0
AllOf P [] = Unit
AllOf P (k ∷ ks) = P k × AllOf P ks

one_of-AllOf : (P : ℕ → Type 0) (n : ℕ) (ks : List ℕ) → one_of n ks ≡ true → AllOf P ks → P n
one_of-AllOf P n [] h a = cc h
one_of-AllOf P n (k ∷ ks) h a = elim (Bool-cases (n == k)) [
  | inl e ↦ subst P (sym ((==_iff n k).0 e)) a.0
  | inr e ↦ one_of-AllOf P n ks (rw e at h) a.1
]

next_pair :
    (P : ℕ → ℕ → Type 0) (n q k p : ℕ) (o : Option ℕ)
    → P k p
    → (o ≡ some q → P n q)
    → (if n == k then some p else o) ≡ some q
    → P n q
next_pair P n q k p o here later h = elim (Bool-cases (n == k)) [
  | inl e ↦
      let same : p ≡ q = some-injective p q (rw e at h) in
      subst (P n) same (subst (λ i. P i p) (sym ((==_iff n k).0 e)) here)
  | inr e ↦ later (rw e at h)
]

-- Two reads without a write between them may be swapped.
swap_reads :
    {A B C : Type 0} (a : Option A) (b : Option B) (k : A → B → Option C)
    → (a >>= λ x. b >>= λ y. k x y) ≡ (b >>= λ y. a >>= λ x. k x y)
swap_reads none none k = refl
swap_reads none (some y) k = refl
swap_reads (some x) none k = refl
swap_reads (some x) (some y) k = refl

abbrev swapped : ℕ → Statement → Statement
swapped pair st = record st { opcode = pair; o1 = st.o2; o2 = st.o1 }

binary-swapped :
    (f : ℕ → ℕ → ℕ) (m : Machine) (st : Statement) (pair : ℕ)
    → binary f m (swapped pair st) ≡ binary (λ a b. f b a) m st
unfolding binary put_c
binary-swapped f m st pair =
    swap_reads (get_elem? m.vm.globals st.o2) (get_elem? m.vm.globals st.o1)
      (λ a b. put_c m st (f a b))

typeless-commutative : (n : ℕ) → one_of (typeless n) commutative ≡ one_of n commutative
unfolding typeless
typeless-commutative n = elim (Bool-cases (one_of n loads)) [
  | inl a ↦ rw a (one_of-AllOf (λ k. false ≡ one_of k commutative) n loads a same)
  | inr a ↦ elim (Bool-cases (one_of n stores)) [
    | inl b ↦ rw (a, b) (one_of-AllOf (λ k. false ≡ one_of k commutative) n stores b same)
    | inr b ↦ elim (Bool-cases (one_of n storeps)) [
      | inl c ↦ rw (a, b, c) (one_of-AllOf (λ k. false ≡ one_of k commutative) n storeps c same)
      | inr c ↦ rw (a, b, c)
    ]
  ]
]
  where
    same : (false ≡ false) × ((false ≡ false) × ((false ≡ false) × ((false ≡ false) × Unit {0})))
    same = (refl, (refl, (refl, (refl, tt))))

module _ (fl : Floats) (builtins : Builtins) (maxjumps : ℕ) (m : Machine) where
  -- What the machine does at a statement.
  abbrev pub turn_at : Statement → Option Outcome
  turn_at st = execute fl builtins maxjumps (decode st.opcode) m st

  abbrev at_code : ℕ → Statement → Statement
  at_code n st = record st { opcode = n }

  typeless-turn_at :
      (n : ℕ) (st : Statement) → turn_at (at_code (typeless n) st) ≡ turn_at (at_code n st)
  unfolding typeless
  typeless-turn_at n st = elim (Bool-cases (one_of n loads)) [
    | inl a ↦ rw a (
        one_of-AllOf (λ k. turn_at (at_code load_f st) ≡ turn_at (at_code k st)) n loads a
          (unfold execute decode load_word in (refl, (refl, (refl, (refl, tt))))))
    | inr a ↦ elim (Bool-cases (one_of n stores)) [
      | inl b ↦
          rw (a, b)
            (one_of-AllOf (λ k. turn_at (at_code store_f st) ≡ turn_at (at_code k st)) n stores b
              (unfold execute decode store_words in (refl, (refl, (refl, (refl, tt))))))
      | inr b ↦ elim (Bool-cases (one_of n storeps)) [
        | inl c ↦
            rw (a, b, c)
              (one_of-AllOf (λ k. turn_at (at_code storep_f st) ≡ turn_at (at_code k st)) n storeps
                c (unfold execute decode store_word in (refl, (refl, (refl, (refl, tt))))))
        | inr c ↦ rw (a, b, c)
      ]
    ]
  ]

  -- Each instruction of a pair does with its operands swapped what the other does.
  abbrev Pairs : ℕ → ℕ → Statement → Type 0
  Pairs n pair st = turn_at (swapped pair st) ≡ turn_at (at_code n st)

  all-Pairs :
      (st : Statement)
      → Pairs mul_vf mul_fv st
        × Pairs mul_fv mul_vf st
        × Pairs lt gt st
        × Pairs gt lt st
        × Pairs le ge st
        × Pairs ge le st
  unfolding execute decode scale_vector binary put_c
  all-Pairs st = (
    refl,
    refl,
    binary-swapped (λ a b. of_bool (fl.lt b a)) m st gt,
    binary-swapped (λ a b. of_bool (fl.lt a b)) m st lt,
    binary-swapped (λ a b. of_bool (fl.le b a)) m st ge,
    binary-swapped (λ a b. of_bool (fl.le a b)) m st le,
  )

  pair_of-Pairs : (n pair : ℕ) (st : Statement) → pair_of n ≡ some pair → Pairs n pair st
  unfolding pair_of
  pair_of-Pairs n pair st =
      let all = all-Pairs st in
      let P : ℕ → ℕ → Type 0 = λ n q. Pairs n q st in
      next_pair P n pair mul_vf mul_fv _ all.0 (
        next_pair P n pair mul_fv mul_vf _ all.1 (
          next_pair P n pair lt gt _ all.2 (
            next_pair P n pair gt lt _ all.3
              (next_pair P n pair le ge _ all.4 (next_pair P n pair ge le _ all.5 λ e. cc)))))

  swap_pair-turn_at :
      (o : Option ℕ) (st : Statement)
      → ((pair : ℕ) → o ≡ some pair → Pairs st.opcode pair st)
      → turn_at (swap_pair o st) ≡ turn_at st
  unfolding swap_pair
  swap_pair-turn_at none st h = refl
  swap_pair-turn_at (some pair) st h = elim (Bool-cases (ltb st.o1 st.o2)) [
    | inl e ↦ rw e (h pair refl)
    | inr e ↦ rw e
  ]

  sorted_statement-turn_at :
      (st : Statement)
      → (one_of st.opcode commutative && ltb st.o1 st.o2) ≡ false
      → turn_at (sorted_statement st) ≡ turn_at st
  unfolding sorted_statement
  sorted_statement-turn_at st h = elim (Bool-cases (one_of st.opcode commutative)) [
    | inl e ↦ rw (e, rw e at h)
    | inr e ↦
        rw e (swap_pair-turn_at (pair_of st.opcode) st (λ pair. pair_of-Pairs st.opcode pair st))
  ]

  -- The last step of `code_push_statement` on the statement `st`.
  sorted-turn_at :
      (sort : Bool) (st : Statement)
      → (sort && one_of st.opcode commutative && ltb st.o1 st.o2) ≡ false
      → turn_at (if sort then sorted_statement st else st) ≡ turn_at st
  sorted-turn_at true st h = sorted_statement-turn_at st h
  sorted-turn_at false st h = refl

  -- The statement that `code_push_statement` adds does on the virtual machine what the given one
  -- does, whatever the flags, unless operands are sorted, the instruction is of the commutative
  -- group and its first operand is the smaller one.
  pub rewrite_statement-turn_at :
      (flags : Flags) (st : Statement)
      → (flags.sort_operands && one_of st.opcode commutative && ltb st.o1 st.o2) ≡ false
      → turn_at (rewrite_statement flags st) ≡ turn_at st
  unfolding rewrite_statement
  rewrite_statement-turn_at flags st h = elim (Bool-cases flags.typeless_stores) [
    | inl e ↦
        let typed : Statement = at_code (typeless st.opcode) st in
        let h' : (flags.sort_operands && one_of typed.opcode commutative && ltb st.o1 st.o2)
            ≡ false =
          rw (typeless-commutative st.opcode) h in
        rw e (sorted-turn_at flags.sort_operands typed h' ∙ typeless-turn_at st.opcode st)
    | inr e ↦ rw e (sorted-turn_at flags.sort_operands st h)
  ]

  -- With sorted operands and without the typeless stores, an addition whose first operand is the
  -- smaller one adds its second operand to itself.
  pub sorted_add_f :
      (st : Statement) (a b : ℕ)
      → st.opcode ≡ add_f
      → st.o1 < st.o2
      → get_elem? m.vm.globals st.o1 ≡ some a
      → get_elem? m.vm.globals st.o2 ≡ some b
      → let flags : Flags = record { typeless_stores = false; sort_operands = true } in
        (turn_at st ≡ put_c m st (fl.add a b))
        × (turn_at (rewrite_statement flags st) ≡ put_c m st (fl.add b b))
  unfolding rewrite_statement sorted_statement execute decode binary put_c
  sorted_add_f st a b code less at_a at_b =
      (rw (code, at_a, at_b), rw (code, lt→ltb st.o1 st.o2 less, at_b))
