-- ===== src/Vm/Exec/Program.antt =====
-- `prog_exec` as a whole, on code without calls.
use gmqcc.Prelude.{
  ℕ, suc, ◌+◌, ◌*◌, ◌≤◌, ◌<◌, ◌≡◌, refl, List, [], ◌∷◌, Option, none, some, arith, length, ◌⊎◌, inl,
  inr, ◌∙◌, ap, ap₂, subst, sym,
}
use gmqcc.Vm.State.{Vm, Function, Frame}
use gmqcc.Vm.Words.{read_block}
use gmqcc.Vm.Frames.{copy_words, copy_params, enter_function, ofs_parm0}
use gmqcc.Vm.Entities.Pool.{IsPool}
use gmqcc.Vm.Strings.Temp.{HasArea}
use gmqcc.Vm.Step.{Floats, Builtins, Machine}
use gmqcc.Vm.Exec.{Run, finished, undefined, out_of_fuel, clean_up, enter_and_run, run, prog_exec}
use gmqcc.Vm.Exec.Effect.{Ensures, bind-Ensures, bind-any, SameLength, KeepsShape, goto_limit}
use gmqcc.Vm.Exec.Handlers.{copy_words-SameLength, write-then}
use gmqcc.Vm.Exec.Ends.{NoCalls, turns_left, EndsFrom, EndsFrom-trans, run-EndsFrom}

copy_params-SameLength :
    (p : ℕ) (sizes : List ℕ) (pos : ℕ) (g : List ℕ)
    → Ensures (SameLength g) (copy_params p sizes pos g)
unfolding copy_params
copy_params-SameLength p [] pos g = refl
copy_params-SameLength p (n ∷ sizes) pos g =
    bind-Ensures (SameLength g) (SameLength g) (copy_words n (ofs_parm0 + 3 * p) pos g) _
      (copy_words-SameLength n (ofs_parm0 + 3 * p) pos g)
      λ g' e. write-then g g' _ e (copy_params-SameLength (suc p) sizes (pos + n) g')

-- A call keeps the shape of the memory and puts one frame on the stack.
Entered : Vm → ℕ × Vm → Type 0
Entered vm r = KeepsShape vm r.1 × (length r.1.stack ≡ suc (length vm.stack))

enter_function-Entered : (func : Function) (vm : Vm) → Ensures (Entered vm) (enter_function func vm)
unfolding enter_function Entered
enter_function-Entered func vm =
    bind-any (Entered vm) (read_block func.locals vm.globals func.first_local) _ λ saved.
      bind-Ensures (SameLength vm.globals) (Entered vm)
        (copy_params 0 func.argsizes func.first_local vm.globals) _
        (copy_params-SameLength 0 func.argsizes func.first_local vm.globals)
        λ g e. ((refl, refl, refl, refl, refl, refl, refl, refl, e, refl), refl)

-- The state that a run of the program leaves: the pool of entities is in step, the area of temporary
-- strings starts within the strings, and the stacks are empty.
pub record IsAtRest (vm vm' : Vm) : Type 0 where
  pub pool : IsPool vm'
  pub area : HasArea vm'
  pub stack : vm'.stack ≡ []
  pub localstack : vm'.localstack ≡ []
  pub globals : length vm'.globals ≡ length vm.globals

clean_up-IsAtRest :
    (vm : Vm) (r : Run)
    → IsPool vm
    → HasArea vm
    → EndsFrom vm r
    → (clean_up r ≡ undefined) ⊎ ((vm' : Vm) × (clean_up r ≡ finished vm') × IsAtRest vm vm')
unfolding clean_up
clean_up-IsAtRest vm (finished vm') p a h = inr (
  record vm' { localstack = []; stack = [] },
  refl,
  record {
    pool = record {
      counted = h.6 ∙ p.counted ∙ ap length (sym h.5);
      sized = h.9 ∙ p.sized ∙ sym (ap₂ (λ n pool. n * length pool) h.7 h.5);
    };
    area = record {
      inside =
          subst (λ (n : ℕ). n ≤ length vm'.strings) (sym h.3)
            (subst (λ (s : List ℕ). vm.tempstring_start ≤ length s) (sym h.2) a.inside);
      behind = omega (arith, h.3, h.4, a.behind);
    };
    stack = refl;
    localstack = refl;
    globals = h.8;
  },
)
clean_up-IsAtRest vm undefined p a h = inl refl
clean_up-IsAtRest vm out_of_fuel p a h = absurd h

EndsFrom-start : (vm : Vm) (r : Run) → EndsFrom (record vm { vmerror = 0 }) r → EndsFrom vm r
EndsFrom-start vm (finished vm') h = h
EndsFrom-start vm undefined h = tt
EndsFrom-start vm out_of_fuel h = h

module _ (fl : Floats) (builtins : Builtins) (maxjumps fuel : ℕ) (small : maxjumps ≤ goto_limit)
    (vm : Vm) (enough : (goto_limit + 1) * (length vm.code + 2) + (length vm.code + 1) < fuel) where
  Entered-EndsFrom :
      (r : Option (ℕ × Vm))
      → NoCalls vm.code
      → vm.stack ≡ []
      → Ensures (Entered vm) r
      → EndsFrom vm (enter_and_run fl builtins maxjumps fuel r)
  unfolding enter_and_run Entered
  Entered-EndsFrom none h s e = tt
  Entered-EndsFrom (some (entry, vm')) h s e =
      let m : Machine = record { vm = vm'; pc = entry; jumps = 0 } in
      let n = length vm.code in
      let size : length vm'.code ≡ n = ap length e.0.0 in
      let frames : length vm'.stack ≡ 1 = e.1 ∙ ap (λ (l : List Frame). suc (length l)) s in
      let few : turns_left m < fuel = rw (frames, size) (omega (arith, enough)) in
      EndsFrom-trans vm vm' (run fl builtins maxjumps fuel m) e.0 (
        run-EndsFrom fl builtins maxjumps small fuel m (subst NoCalls (sym e.0.0) h)
          (inl (omega arith)) few)

-- On code without calls, with a limit of at most 10000000 jumps, from a state without frames on the
-- stack, with the pool of entities in step with its counters, and with an area of temporary strings
-- that starts within the strings and not behind its mark, a run of `prog_exec` never uses up a fuel
-- of more than (10000000 + 1) * (n + 2) + (n + 1) turns for `n` statements: it has no defined result,
-- since it reads or writes out of bounds, or it ends with both stacks empty, the pool and the area
-- still so, and as many globals as before.
pub prog_exec-IsAtRest :
    (fl : Floats) (builtins : Builtins) (maxjumps fuel : ℕ) (func : Function) (vm : Vm)
    → maxjumps ≤ goto_limit
    → (goto_limit + 1) * (length vm.code + 2) + (length vm.code + 1) < fuel
    → NoCalls vm.code
    → vm.stack ≡ []
    → IsPool vm
    → HasArea vm
    → let r = prog_exec fl builtins maxjumps fuel func vm in
      (r ≡ undefined) ⊎ ((vm' : Vm) × (r ≡ finished vm') × IsAtRest vm vm')
unfolding prog_exec
prog_exec-IsAtRest fl builtins maxjumps fuel func vm small enough h s p a =
    let start : Vm = record vm { vmerror = 0 } in
    let r = enter_and_run fl builtins maxjumps fuel (enter_function func start) in
    clean_up-IsAtRest vm r p a (
      EndsFrom-start vm r (
        Entered-EndsFrom fl builtins maxjumps fuel small start enough (enter_function func start) h
          s (enter_function-Entered func start)))
