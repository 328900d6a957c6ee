-- ===== src/Vm/Frames/Balance.antt =====
-- A call and the return from it.
use mathlib.Core.Option.{some-injective}
use gmqcc.Prelude.{
  ℕ, ◌+◌, ◌*◌, ◌≤◌, ◌<◌, ◌≡◌, refl, List, [], ◌∷◌, ◌++◌, Option, some, arith, length, get_elem?,
  take, ◌⊎◌, ◌∙◌, sym, subst, ap, length-append, get_elem?-append_right,
}
use gmqcc.Vm.State.{Vm, Function}
use gmqcc.Vm.Words.Blocks.{write_block-IsWritten, IsBlock, read_block-IsBlock, get_elem?-some}
use gmqcc.Vm.Frames.{ofs_parm0, enter_function, leave_function}
use gmqcc.Vm.Frames.Copy.{sum, Passed, AtMostThree, copy_params-AreCopied}

-- The locals of the function lie in the globals behind the words of its arguments, and hold its
-- parameters.
pub record IsCallable (func : Function) (vm : Vm) : Type 0 where
  pub sizes : AtMostThree func.argsizes
  pub behind : ofs_parm0 + 3 * length func.argsizes ≤ func.first_local
  pub hold : sum func.argsizes ≤ func.locals
  pub inside : func.first_local + func.locals ≤ length vm.globals

-- `vm'` is `vm` after the call of `func`, which saved the words `saved`.
pub record IsEntered (func : Function) (vm vm' : Vm) : Type 0 where
  pub saved : List ℕ
  pub block : IsBlock vm.globals func.first_local func.locals saved
  pub localstack : vm'.localstack ≡ vm.localstack ++ saved
  pub stack :
      vm'.stack
      ≡ record { stmt = vm.statement; localsp = length vm.localstack; function = func } ∷ vm.stack
  pub same_length : length vm'.globals ≡ length vm.globals
  pub passed : Passed 0 func.argsizes func.first_local vm.globals vm'.globals
  pub outside :
      (j : ℕ)
      → (j < func.first_local) ⊎ (func.first_local + func.locals ≤ j)
      → get_elem? vm'.globals j ≡ get_elem? vm.globals j

-- A call of a callable function is defined and starts at its entry: the locals are saved, a frame
-- with the statement to return to is put on the stack, each parameter holds its argument, and the
-- globals that are no locals of the function are unchanged.
pub enter_function-IsEntered :
    (func : Function) (vm : Vm)
    → IsCallable func vm
    → (vm' : Vm) × (enter_function func vm ≡ some (func.entry, vm')) × IsEntered func vm vm'
unfolding enter_function
enter_function-IsEntered func vm h =
    let b = read_block-IsBlock func.locals vm.globals func.first_local h.inside in
    let c =
      copy_params-AreCopied 0 func.argsizes func.first_local vm.globals h.sizes
        (omega (arith, h.behind)) (omega (arith, h.inside, h.hold)) in
    (
      record vm {
        localstack = vm.localstack ++ b.0;
        globals = c.0;
        stack =
            record { stmt = vm.statement; localsp = length vm.localstack; function = func }
            ∷ vm.stack;
      },
      rw (b.1, c.1),
      record {
        saved = b.0;
        block = b.2;
        localstack = refl;
        stack = refl;
        same_length = c.2.same_length;
        passed = c.2.passed;
        outside = λ j s. c.2.outside j (ground (arith, h.hold));
      },
    )

take-append : (xs ys : List ℕ) → take (length xs) (xs ++ ys) ≡ xs
take-append [] ys = refl
take-append (x ∷ xs) ys = ap (◌∷◌ x) (take-append xs ys)

-- `vm''` is `vm'` after the return to `vm`.
pub record IsReturned (func : Function) (vm vm' vm'' : Vm) : Type 0 where
  pub stack : vm''.stack ≡ vm.stack
  pub localstack : vm''.localstack ≡ vm.localstack
  pub restored :
      (k : ℕ)
      → k < func.locals
      → get_elem? vm''.globals (func.first_local + k) ≡ get_elem? vm.globals (func.first_local + k)
  pub outside :
      (j : ℕ)
      → (j < func.first_local) ⊎ (func.first_local + func.locals ≤ j)
      → get_elem? vm''.globals j ≡ get_elem? vm'.globals j

leave_function-IsReturned :
    (func : Function) (vm vm₁ vm₂ : Vm)
    → IsEntered func vm vm₁
    → func.first_local + func.locals ≤ length vm.globals
    → vm₂.stack ≡ vm₁.stack
    → vm₂.localstack ≡ vm₁.localstack
    → length vm₂.globals ≡ length vm.globals
    → (vm₃ : Vm) × (leave_function vm₂ ≡ some (vm.statement, vm₃)) × IsReturned func vm vm₂ vm₃
unfolding leave_function
leave_function-IsReturned func vm vm₁ vm₂ h p same_stack same_locals size =
    let l = length vm.localstack in
    let locals : vm₂.localstack ≡ vm.localstack ++ h.saved = same_locals ∙ h.localstack in
    let b =
      read_block-IsBlock func.locals (vm.localstack ++ h.saved) l
        (omega (arith, length-append vm.localstack h.saved, h.block.count)) in
    let w = write_block-IsWritten vm₂.globals func.first_local b.0 (omega (arith, b.2.count)) in
    (
      record vm₂ { globals = w.0; localstack = vm.localstack; stack = vm.stack },
      rw (same_stack, h.stack, locals, b.1, w.1, take-append vm.localstack h.saved),
      record {
        stack = refl;
        localstack = refl;
        restored = λ k q.
            let word = get_elem?-some b.0 k (omega (arith, b.2.count)) in
            w.2.inside k word.0 word.1
            ∙ sym word.1
            ∙ b.2.at k q
            ∙ get_elem?-append_right vm.localstack h.saved k
            ∙ h.block.at k q;
        outside = λ j s. w.2.outside j (ground (arith, b.2.count));
      },
    )

-- A callee with its locals in the globals behind the words of its arguments and room for its
-- parameters, that leaves the two stacks as the call made them, and keeps the number of globals,
-- returns to the statement after the call: the stacks are those of the caller, the function's locals have
-- the words that they had before the call, and every other global is as the callee left it.
pub leave-enter_function :
    (func : Function) (vm vm₁ vm₂ : Vm)
    → IsCallable func vm
    → enter_function func vm ≡ some (func.entry, vm₁)
    → vm₂.stack ≡ vm₁.stack
    → vm₂.localstack ≡ vm₁.localstack
    → length vm₂.globals ≡ length vm.globals
    → (vm₃ : Vm) × (leave_function vm₂ ≡ some (vm.statement, vm₃)) × IsReturned func vm vm₂ vm₃
leave-enter_function func vm vm₁ vm₂ h e same_stack same_locals size =
    let r = enter_function-IsEntered func vm h in
    let same : ◌≡◌ {A = Option (ℕ × Vm)} (some (func.entry, r.0)) (some (func.entry, vm₁)) =
      sym r.1 ∙ e in
    let entered : IsEntered func vm vm₁ =
      subst (λ (q : ℕ × Vm). IsEntered func vm q.1)
        (some-injective (func.entry, r.0) (func.entry, vm₁) same) r.2 in
    leave_function-IsReturned func vm vm₁ vm₂ entered h.inside same_stack same_locals size
