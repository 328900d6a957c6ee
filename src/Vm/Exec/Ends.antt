-- ===== src/Vm/Exec/Ends.antt =====
-- A run without calls keeps the shape of the memory, and ends.
use mathlib.Core.Option.{some-injective}
use gmqcc.Prelude.{
  ℕ, zero, suc, ◌+◌, ◌-◌, ◌*◌, ◌≤◌, ◌<◌, ◌≡◌, ◌≢◌, refl, Bool, true, false, List, [], ◌∷◌, Option,
  none, some, arith, length, get_elem?, ◌==◌, ◌⊎◌, inl, inr, ◌∙◌, Option-cases, sym, subst,
  ℕ_discrete,
}
use gmqcc.Vm.State.{Vm, Statement}
use gmqcc.Vm.Opcodes.{decode}
use gmqcc.Vm.Step.{Floats, Builtins, Machine, Outcome, next, cleanup}
use gmqcc.Vm.Exec.{Run, finished, undefined, out_of_fuel, after_turn, execute, step, run}
use gmqcc.Vm.Exec.Effect.{Ensures, KeepsShape, Moves, Effect, goto_limit}
use gmqcc.Vm.Exec.Turn.{is_call, execute-Effect}

-- No statement is a call.
abbrev pub NoCalls : List Statement → Type 0
NoCalls [] = Unit
NoCalls (st ∷ code) = (is_call (decode st.opcode) ≡ false) × NoCalls code

NoCalls-get_elem? :
    (code : List Statement) (i : ℕ) (st : Statement)
    → NoCalls code
    → get_elem? code i ≡ some st
    → (is_call (decode st.opcode) ≡ false) × (i < length code)
NoCalls-get_elem? [] i st h e = cc
NoCalls-get_elem? (s ∷ code) zero st h e = (
  subst (λ (t : Statement). is_call (decode t.opcode) ≡ false) (some-injective s st e) h.0,
  omega arith,
)
NoCalls-get_elem? (s ∷ code) (suc i) st h e =
    let r = NoCalls-get_elem? code i st h.1 e in (r.0, omega (arith, r.1))

-- A bound on the turns that are left: the frames to return from and the jumps that the limit leaves,
-- each with a walk through the code.
abbrev pub turns_left : Machine → ℕ
turns_left m =
    (length m.vm.stack + (goto_limit - m.jumps)) * (length m.vm.code + 2)
    + (length m.vm.code + 1 - m.pc)

fewer : (a b n x y : ℕ) → a < b → x < n → a * n + x < b * n + y
fewer a b n x y p q = grind arith

nearer : (a n p : ℕ) → p < n → a * (n + 2) + (n + 1 - suc p) < a * (n + 2) + (n + 1 - p)
nearer a n p h = omega arith

-- The bound as a function of the frames, the jumps, the size of the code and the place.
abbrev turns_of : ℕ → ℕ → ℕ → ℕ → ℕ
turns_of frames jumps n pc = (frames + (goto_limit - jumps)) * (n + 2) + (n + 1 - pc)

-- Before the limit of jumps a move leaves fewer turns.
Moves-turns_left :
    (m m' : Machine)
    → m'.vm.code ≡ m.vm.code
    → m.pc < length m.vm.code
    → m.jumps < goto_limit
    → Moves m m'
    → turns_left m' < turns_left m
Moves-turns_left m m' same p q (inl h) =
    let n = length m.vm.code in
    let frames = length m.vm.stack in
    rw (same, h.0, h.1, h.2) (nearer (frames + (goto_limit - m.jumps)) n m.pc p)
Moves-turns_left m m' same p q (inr (inl h)) =
    let n = length m.vm.code in
    let frames = length m.vm.stack in
    rw (same, h.0, h.1)
      (fewer (frames + (goto_limit - suc m.jumps)) (frames + (goto_limit - m.jumps)) (n + 2)
        (n + 1 - m'.pc) (n + 1 - m.pc) (omega arith) (omega arith))
Moves-turns_left m m' same p q (inr (inr h)) =
    let n = length m.vm.code in
    let frames = length m.vm.stack in
    rw (same, h.0)
      (fewer (length m'.vm.stack + (goto_limit - m.jumps)) (frames + (goto_limit - m.jumps)) (n + 2)
        (n + 1 - m'.pc) (n + 1 - m.pc) (omega (arith, h.1)) (omega arith))

-- A run that ended without a fault kept the shape of the memory; it did not use up its fuel.
abbrev pub EndsFrom : Vm → Run → Type 0
EndsFrom vm (finished vm') = KeepsShape vm vm'
EndsFrom vm undefined = Unit
EndsFrom vm out_of_fuel = ⊥

pub KeepsShape-trans : (a b c : Vm) → KeepsShape a b → KeepsShape b c → KeepsShape a c
KeepsShape-trans a b c h k = (
  k.0 ∙ h.0,
  k.1 ∙ h.1,
  k.2 ∙ h.2,
  k.3 ∙ h.3,
  k.4 ∙ h.4,
  k.5 ∙ h.5,
  k.6 ∙ h.6,
  k.7 ∙ h.7,
  k.8 ∙ h.8,
  k.9 ∙ h.9,
)

pub EndsFrom-trans : (a b : Vm) (r : Run) → KeepsShape a b → EndsFrom b r → EndsFrom a r
EndsFrom-trans a b (finished c) h k = KeepsShape-trans a b c h k
EndsFrom-trans a b undefined h k = tt
EndsFrom-trans a b out_of_fuel h k = k

after_turn-EndsFrom :
    (m : Machine) (o : Option Outcome) (rest : Machine → Run)
    → Ensures (λ o. Effect m o × (m.pc < length m.vm.code)) o
    → ((m' : Machine)
        → KeepsShape m.vm m'.vm
        → Moves m m'
        → m.pc < length m.vm.code
        → EndsFrom m'.vm (rest m'))
    → EndsFrom m.vm (after_turn rest o)
unfolding after_turn
after_turn-EndsFrom m none rest h f = tt
after_turn-EndsFrom m (some (cleanup vm)) rest h f = h.0
after_turn-EndsFrom m (some (next m')) rest h f =
    EndsFrom-trans m.vm m'.vm (rest m') h.0.0 (f m' h.0.0 h.0.1 h.1)

-- The test of the loop.
test-EndsFrom :
    (vm : Vm) (b : Bool) (r : Run)
    → (b ≡ true → EndsFrom vm r)
    → EndsFrom vm (elim b [ false ↦ finished vm | true ↦ r ])
test-EndsFrom vm true r f = f refl
test-EndsFrom vm false r f = (refl, refl, refl, refl, refl, refl, refl, refl, refl, refl)

-- The count of jumps is below its limit, or the error has been reported.
abbrev pub InLimit : Machine → Type 0
InLimit m = (m.jumps < goto_limit) ⊎ (m.vm.vmerror ≢ 0)

Moves-InLimit : (m m' : Machine) → m.jumps < goto_limit → Moves m m' → InLimit m'
Moves-InLimit m m' p (inl h) = inl (omega (arith, h.1))
Moves-InLimit m m' p (inr (inl h)) = elim (ℕ_discrete m'.jumps goto_limit) [
  | yes e ↦ inr (h.2 e)
  | no n ↦ inl (omega (arith, h.0))
]
Moves-InLimit m m' p (inr (inr h)) = inl (omega (arith, h.0))

Ensures-with :
    {A : Type 0} (P : A → Type 0) (Q : Type 0) (o : Option A)
    → Ensures P o
    → Q
    → Ensures (λ a. P a × Q) o
Ensures-with P Q none h q = tt
Ensures-with P Q (some a) h q = (h, q)

module _ (fl : Floats) (builtins : Builtins) (maxjumps : ℕ) (small : maxjumps ≤ goto_limit) where
  -- A turn of the loop in code without calls, with the bounds of the place it was made at.
  step-Effect :
      (m : Machine)
      → NoCalls m.vm.code
      → Ensures (λ o. Effect m o × (m.pc < length m.vm.code)) (step fl builtins maxjumps m)
  unfolding step
  step-Effect m h = elim (Option-cases (get_elem? m.vm.code m.pc)) [
    | inl past ↦ rw past tt
    | inr (st, at) ↦
        let r = NoCalls-get_elem? m.vm.code m.pc st h at in
        rw at (
          Ensures-with (Effect m) (m.pc < length m.vm.code)
            (execute fl builtins maxjumps (decode st.opcode) m st)
            (execute-Effect fl builtins maxjumps small m st (decode st.opcode) r.0) r.1)
  ]

  pub run-EndsFrom :
      (fuel : ℕ) (m : Machine)
      → NoCalls m.vm.code
      → InLimit m
      → turns_left m < fuel
      → EndsFrom m.vm (run fl builtins maxjumps fuel m)
  unfolding run
  run-EndsFrom zero m h k p = absurd (omega arith)
  run-EndsFrom (suc fuel) m h k p =
      test-EndsFrom m.vm (m.vm.vmerror == 0)
        (after_turn (run fl builtins maxjumps fuel) (step fl builtins maxjumps m))
        λ e.
          let low : m.jumps < goto_limit = ground arith in
          after_turn-EndsFrom m (step fl builtins maxjumps m) (run fl builtins maxjumps fuel)
            (step-Effect m h)
            λ m' keeps moves within.
              let fewer_turns = Moves-turns_left m m' keeps.0 within low moves in
              run-EndsFrom fuel m' (subst NoCalls (sym keeps.0) h) (Moves-InLimit m m' low moves)
                (omega (arith, fewer_turns, p))
