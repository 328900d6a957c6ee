-- ===== src/Vm/Exec/Turn.antt =====
-- The effect of a turn of the loop.
use mathlib.Core.Bool.{false≢true}
use gmqcc.Prelude.{
  sym, ap, ℕ, suc, ◌≤◌, ◌<◌, ◌≡◌, refl, Bool, true, false, not, ◌&&◌, ◌||◌, List, [], ◌∷◌, some,
  arith, length, get_elem?, leb, ◌==◌, if◌then◌else◌, if-both, inl, inr, ◌∙◌, Bool-cases,
}
use gmqcc.Vm.State.{Vm, Statement, Frame}
use gmqcc.Vm.Words.{read_block, write_block}
use gmqcc.Vm.Frames.{copy_words, leave_frame, leave_function}
use gmqcc.Vm.Opcodes.{
  Opcode, illegal, instr_done, instr_mul_f, instr_mul_v, instr_mul_fv, instr_mul_vf, instr_div_f,
  instr_add_f, instr_add_v, instr_sub_f, instr_sub_v, instr_eq_f, instr_eq_v, instr_eq_s,
  instr_eq_e, instr_eq_fnc, instr_ne_f, instr_ne_v, instr_ne_s, instr_ne_e, instr_ne_fnc, instr_le,
  instr_ge, instr_lt, instr_gt, instr_load_f, instr_load_v, instr_load_s, instr_load_ent,
  instr_load_fld, instr_load_fnc, instr_address, instr_store_f, instr_store_v, instr_store_s,
  instr_store_ent, instr_store_fld, instr_store_fnc, instr_storep_f, instr_storep_v, instr_storep_s,
  instr_storep_ent, instr_storep_fld, instr_storep_fnc, instr_return, instr_not_f, instr_not_v,
  instr_not_s, instr_not_ent, instr_not_fnc, instr_if, instr_ifnot, instr_call0, instr_call1,
  instr_call2, instr_call3, instr_call4, instr_call5, instr_call6, instr_call7, instr_call8,
  instr_state, instr_goto, instr_and, instr_or, instr_bitand, instr_bitor,
}
use gmqcc.Vm.Step.{Floats, Builtins, Machine, next, cleanup, is_true, of_bool}
use gmqcc.Vm.Control.{jump_target, jump, branch, goto, return_from}
use gmqcc.Vm.Exec.{execute, dot, divide, same_vector}
use gmqcc.Vm.Exec.Effect.{
  Ensures, bind-Ensures, bind-any, SameLength, KeepsShape, Effect, goto_limit,
}
use gmqcc.Vm.Exec.Handlers.{
  unary-Effect, binary-Effect, compare_strings-Effect, from_vectors-Effect, not_vector-Effect,
  not_string-Effect, to_vector-Effect, scale_vector-Effect, store_words-Effect,
  copy_words-SameLength, write_block-SameLength,
}
use gmqcc.Vm.Exec.Access.{
  load_word-Effect, load_vector-Effect, address-Effect, store_word-Effect, store_vector-Effect,
  state_frame-Effect, fail_with-Effect,
}
use Prim.Native.Nat.{bit_and, bit_or}

-- A return takes the innermost frame away.
Left : List Frame → Vm → ℕ × Vm → Type 0
Left frames vm r = KeepsShape vm r.1 × (suc (length r.1.stack) ≡ length frames)

leave_frame-Left :
    (frames : List Frame) (vm : Vm) → Ensures (Left frames vm) (leave_frame frames vm)
unfolding leave_frame Left
leave_frame-Left [] vm = tt
leave_frame-Left (f ∷ frames) vm =
    bind-any (Left (f ∷ frames) vm) (read_block f.function.locals vm.localstack f.localsp) _
      λ saved.
        bind-Ensures (SameLength vm.globals) (Left (f ∷ frames) vm)
          (write_block vm.globals f.function.first_local saved) _
          (write_block-SameLength vm.globals f.function.first_local saved)
          λ g e. ((refl, refl, refl, refl, refl, refl, refl, refl, e, refl), refl)

KeepsShape-globals :
    (vm : Vm) (g : List ℕ) (vm' : Vm)
    → SameLength vm.globals g
    → KeepsShape (record vm { globals = g }) vm'
    → KeepsShape vm vm'
KeepsShape-globals vm g vm' e h = (h.0, h.1, h.2, h.3, h.4, h.5, h.6, h.7, h.8 ∙ e, h.9)

-- Where the loop goes on after a return.
return_stack-Effect :
    (m : Machine) (pc : ℕ) (vm : Vm) (frames : List Frame)
    → KeepsShape m.vm vm
    → length vm.stack < length m.vm.stack
    → Ensures (Effect m) (elim frames [
      | [] ↦ some (cleanup vm)
      | f ∷ fs ↦ some (next (record m { vm = vm; pc = pc }))
    ])
return_stack-Effect m pc vm [] h p = h
return_stack-Effect m pc vm (f ∷ fs) h p = (h, inr (inr (refl, p)))

module _ (m : Machine) where
  jump-Effect :
      (over : ℕ → Bool) (d : ℕ) → over goto_limit ≡ true → Ensures (Effect m) (jump over d m)
  unfolding jump
  jump-Effect over d limit = bind-any (Effect m) (jump_target m.pc d) _ λ pc.
      elim (Bool-cases (over (suc m.jumps))) [
        | inl stop ↦ rw stop (
          (refl, refl, refl, refl, refl, refl, refl, refl, refl, refl),
          inr (inl (refl, refl, λ e z. ground arith)),
        )
        | inr go ↦ rw go (
          (refl, refl, refl, refl, refl, refl, refl, refl, refl, refl),
          inr (inl (refl, refl, λ e z. false≢true (sym go ∙ ap over e ∙ limit))),
        )
      ]

  module _ (st : Statement) where
    branch-Effect :
        (want : Bool) (maxjumps : ℕ)
        → maxjumps ≤ goto_limit
        → Ensures (Effect m) (branch want maxjumps m st)
    unfolding branch
    branch-Effect want maxjumps p = bind-any (Effect m) (get_elem? m.vm.globals st.o1) _ λ a.
        if-both (Ensures (Effect m)) (if want then is_true a else not (is_true a)) _ _
          (jump-Effect (λ n. leb maxjumps n) st.o2 (ground arith))
          ((refl, refl, refl, refl, refl, refl, refl, refl, refl, refl), inl (refl, refl, refl))

    goto-Effect : Ensures (Effect m) (goto m st)
    unfolding goto
    goto-Effect = jump-Effect (λ n. n == goto_limit) st.o1 refl

    return_from-Effect : Ensures (Effect m) (return_from m st)
    unfolding return_from leave_function Left
    return_from-Effect =
        bind-Ensures (SameLength m.vm.globals) (Effect m) (copy_words 3 st.o1 1 m.vm.globals) _
          (copy_words-SameLength 3 st.o1 1 m.vm.globals)
          λ g e.
            bind-Ensures (Left m.vm.stack (record m.vm { globals = g })) (Effect m)
              (leave_frame m.vm.stack (record m.vm { globals = g })) _
              (leave_frame-Left m.vm.stack (record m.vm { globals = g }))
              λ r l.
                return_stack-Effect m r.0 r.1 r.1.stack (KeepsShape-globals m.vm g r.1 e l.0)
                  (omega (arith, l.1))

-- INSTR_CALL0 to INSTR_CALL8.
abbrev pub is_call : Opcode → Bool
is_call instr_call0 = true
is_call instr_call1 = true
is_call instr_call2 = true
is_call instr_call3 = true
is_call instr_call4 = true
is_call instr_call5 = true
is_call instr_call6 = true
is_call instr_call7 = true
is_call instr_call8 = true
is_call _ = false

module _ (fl : Floats) (builtins : Builtins) (maxjumps : ℕ) (small : maxjumps ≤ goto_limit)
    (m : Machine) (st : Statement) where
  -- An instruction that is no call.
  pub execute-Effect :
      (op : Opcode) → is_call op ≡ false → Ensures (Effect m) (execute fl builtins maxjumps op m st)
  unfolding execute
  execute-Effect instr_done h = return_from-Effect m st
  execute-Effect instr_mul_f h = binary-Effect m st fl.mul
  execute-Effect instr_mul_v h = from_vectors-Effect m st (dot fl)
  execute-Effect instr_mul_fv h = scale_vector-Effect m st fl.mul st.o1 st.o2
  execute-Effect instr_mul_vf h = scale_vector-Effect m st fl.mul st.o2 st.o1
  execute-Effect instr_div_f h = binary-Effect m st (divide fl)
  execute-Effect instr_add_f h = binary-Effect m st fl.add
  execute-Effect instr_add_v h = to_vector-Effect m st fl.add
  execute-Effect instr_sub_f h = binary-Effect m st fl.sub
  execute-Effect instr_sub_v h = to_vector-Effect m st fl.sub
  execute-Effect instr_eq_f h = binary-Effect m st (λ a b. of_bool (fl.eq a b))
  execute-Effect instr_eq_v h = from_vectors-Effect m st (λ a b. of_bool (same_vector fl a b))
  execute-Effect instr_eq_s h = compare_strings-Effect m st (λ b. b)
  execute-Effect instr_eq_e h = binary-Effect m st (λ a b. of_bool (a == b))
  execute-Effect instr_eq_fnc h = binary-Effect m st (λ a b. of_bool (a == b))
  execute-Effect instr_ne_f h = binary-Effect m st (λ a b. of_bool (not (fl.eq a b)))
  execute-Effect instr_ne_v h = from_vectors-Effect m st (λ a b. of_bool (not (same_vector fl a b)))
  execute-Effect instr_ne_s h = compare_strings-Effect m st not
  execute-Effect instr_ne_e h = binary-Effect m st (λ a b. of_bool (not (a == b)))
  execute-Effect instr_ne_fnc h = binary-Effect m st (λ a b. of_bool (not (a == b)))
  execute-Effect instr_le h = binary-Effect m st (λ a b. of_bool (fl.le a b))
  execute-Effect instr_ge h = binary-Effect m st (λ a b. of_bool (fl.le b a))
  execute-Effect instr_lt h = binary-Effect m st (λ a b. of_bool (fl.lt a b))
  execute-Effect instr_gt h = binary-Effect m st (λ a b. of_bool (fl.lt b a))
  execute-Effect instr_load_f h = load_word-Effect m st
  execute-Effect instr_load_v h = load_vector-Effect m st
  execute-Effect instr_load_s h = load_word-Effect m st
  execute-Effect instr_load_ent h = load_word-Effect m st
  execute-Effect instr_load_fld h = load_word-Effect m st
  execute-Effect instr_load_fnc h = load_word-Effect m st
  execute-Effect instr_address h = address-Effect m st
  execute-Effect instr_store_f h = store_words-Effect m st 1
  execute-Effect instr_store_v h = store_words-Effect m st 3
  execute-Effect instr_store_s h = store_words-Effect m st 1
  execute-Effect instr_store_ent h = store_words-Effect m st 1
  execute-Effect instr_store_fld h = store_words-Effect m st 1
  execute-Effect instr_store_fnc h = store_words-Effect m st 1
  execute-Effect instr_storep_f h = store_word-Effect m st
  execute-Effect instr_storep_v h = store_vector-Effect m st
  execute-Effect instr_storep_s h = store_word-Effect m st
  execute-Effect instr_storep_ent h = store_word-Effect m st
  execute-Effect instr_storep_fld h = store_word-Effect m st
  execute-Effect instr_storep_fnc h = store_word-Effect m st
  execute-Effect instr_return h = return_from-Effect m st
  execute-Effect instr_not_f h = unary-Effect m st (λ a. of_bool (not (is_true a)))
  execute-Effect instr_not_v h = not_vector-Effect m st fl
  execute-Effect instr_not_s h = not_string-Effect m st
  execute-Effect instr_not_ent h = unary-Effect m st (λ a. of_bool (a == 0))
  execute-Effect instr_not_fnc h = unary-Effect m st (λ a. of_bool (a == 0))
  execute-Effect instr_if h = branch-Effect m st true maxjumps small
  execute-Effect instr_ifnot h = branch-Effect m st false maxjumps small
  execute-Effect instr_call0 h = absurd (false≢true (sym h))
  execute-Effect instr_call1 h = absurd (false≢true (sym h))
  execute-Effect instr_call2 h = absurd (false≢true (sym h))
  execute-Effect instr_call3 h = absurd (false≢true (sym h))
  execute-Effect instr_call4 h = absurd (false≢true (sym h))
  execute-Effect instr_call5 h = absurd (false≢true (sym h))
  execute-Effect instr_call6 h = absurd (false≢true (sym h))
  execute-Effect instr_call7 h = absurd (false≢true (sym h))
  execute-Effect instr_call8 h = absurd (false≢true (sym h))
  execute-Effect instr_state h = state_frame-Effect m st fl
  execute-Effect instr_goto h = goto-Effect m st
  execute-Effect instr_and h = binary-Effect m st (λ a b. of_bool (is_true a && is_true b))
  execute-Effect instr_or h = binary-Effect m st (λ a b. of_bool (is_true a || is_true b))
  execute-Effect instr_bitand h =
      binary-Effect m st (λ a b. fl.of_int (bit_and (fl.to_int a) (fl.to_int b)))
  execute-Effect instr_bitor h =
      binary-Effect m st (λ a b. fl.of_int (bit_or (fl.to_int a) (fl.to_int b)))
  execute-Effect illegal h = fail_with-Effect m
