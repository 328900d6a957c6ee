-- ===== src/Vm/Exec/Effect.antt =====
-- What one instruction that is no call does to the shape of the machine's memory and to the place
-- of the loop.
use gmqcc.Prelude.{
  ℕ, suc, ◌<◌, ◌≡◌, ◌≢◌, refl, List, Option, none, some, length, length-set, ltb, ◌⊎◌, inl, inr,
  Bool-cases,
}
use gmqcc.Vm.State.{Vm, Statement}
use gmqcc.Vm.Words.{◌>>=◌, write?}
use gmqcc.Vm.Step.{Machine, Outcome, next, cleanup, put_c}

-- Where there is a result, it meets `P`.
abbrev pub Ensures : {A : Type 0} → (A → Type 0) → Option A → Type 0
Ensures P none = Unit
Ensures P (some a) = P a

pub bind-Ensures :
    {A B : Type 0} (P : A → Type 0) (Q : B → Type 0) (o : Option A) (k : A → Option B)
    → Ensures P o
    → ((a : A) → P a → Ensures Q (k a))
    → Ensures Q (o >>= k)
bind-Ensures P Q none k h f = tt
bind-Ensures P Q (some a) k h f = f a h

-- A result of which nothing is used.
pub bind-any :
    {A B : Type 0} (Q : B → Type 0) (o : Option A) (k : A → Option B)
    → ((a : A) → Ensures Q (k a))
    → Ensures Q (o >>= k)
bind-any Q none k f = tt
bind-any Q (some a) k f = f a

abbrev pub SameLength : List ℕ → List ℕ → Type 0
SameLength g g' = length g' ≡ length g

pub write?-SameLength : (g : List ℕ) (i v : ℕ) → Ensures (SameLength g) (write? g i v)
unfolding write?
write?-SameLength g i v = elim (Bool-cases (ltb i (length g))) [
  | inl e ↦ rw e (length-set g i v)
  | inr e ↦ rw e tt
]

-- The sizes of the memory, and what only builtins change.
abbrev pub KeepsShape : Vm → Vm → Type 0
KeepsShape vm vm' =
    (vm'.code ≡ vm.code)
    × (vm'.functions ≡ vm.functions)
    × (vm'.strings ≡ vm.strings)
    × (vm'.tempstring_start ≡ vm.tempstring_start)
    × (vm'.tempstring_at ≡ vm.tempstring_at)
    × (vm'.entitypool ≡ vm.entitypool)
    × (vm'.entities ≡ vm.entities)
    × (vm'.entityfields ≡ vm.entityfields)
    × (length vm'.globals ≡ length vm.globals)
    × (length vm'.entitydata ≡ length vm.entitydata)

abbrev pub goto_limit : ℕ
goto_limit = 10_000_000

-- The loop goes on: to the next statement, by a jump that is counted and reported at the limit, or
-- by a return to an outer frame.
abbrev pub Moves : Machine → Machine → Type 0
Moves m m' =
    ((m'.pc ≡ suc m.pc) × (m'.jumps ≡ m.jumps) × (length m'.vm.stack ≡ length m.vm.stack))
    ⊎ ((m'.jumps ≡ suc m.jumps)
        × (length m'.vm.stack ≡ length m.vm.stack)
        × (m'.jumps ≡ goto_limit → m'.vm.vmerror ≢ 0))
    ⊎ ((m'.jumps ≡ m.jumps) × (length m'.vm.stack < length m.vm.stack))

abbrev pub Effect : Machine → Outcome → Type 0
Effect m (next m') = KeepsShape m.vm m'.vm × Moves m m'
Effect m (cleanup vm') = KeepsShape m.vm vm'

-- Globals of the same length, and on to the next statement.
pub globals-Effect :
    (m : Machine) (o : Option (List ℕ))
    → Ensures (SameLength m.vm.globals) o
    → Ensures
        (Effect m)
        (o >>= λ g. some (next (record m { vm = record m.vm { globals = g }; pc = suc m.pc })))
globals-Effect m o h =
    bind-Ensures (SameLength m.vm.globals) (Effect m) o _ h
      λ g e. ((refl, refl, refl, refl, refl, refl, refl, refl, e, refl), inl (refl, refl, refl))

pub put_c-Effect : (m : Machine) (st : Statement) (w : ℕ) → Ensures (Effect m) (put_c m st w)
unfolding put_c
put_c-Effect m st w =
    globals-Effect m (write? m.vm.globals st.o3 w) (write?-SameLength m.vm.globals st.o3 w)
