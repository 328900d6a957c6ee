-- ===== src/Vm/Exec/Access.antt =====
-- The effect of the instructions that use entities or choose the next statement, and of each
-- instruction that is no call.
use gmqcc.Prelude.{
  ℕ, suc, ◌+◌, ◌^◌, ◌%◌, ◌*◌, refl, not, ◌&&◌, ◌||◌, List, Option, some, length, get_elem?, ltb,
  leb, if-both, inl, inr, ◌∙◌, Bool-cases,
}
use gmqcc.Vm.State.{Vm, Statement}
use gmqcc.Vm.Words.{◌>>=◌, write?, at_least, is_negative}
use gmqcc.Vm.Entities.{get_edict}
use gmqcc.Vm.Step.{Floats, Machine, next, fail_with}
use gmqcc.Vm.Access.{
  bad_edict, load_word, fetch_vector, load_vector, address, ent_field, check_world, store_word,
  store_vector, state_frame,
}
use gmqcc.Vm.Exec.Effect.{Ensures, bind-Ensures, bind-any, SameLength, write?-SameLength, Effect}
use gmqcc.Vm.Exec.Handlers.{fetch_vector-SameLength, write-then}

-- The number of errors is all that `prog_getedict` changes.
get_edict-any :
    {B : Type 0} (Q : B → Type 0) (e : ℕ) (vm : Vm) (k : ℕ × Vm → Option B)
    → ((ed n : ℕ) → Ensures Q (k (ed, record vm { vmerror = n })))
    → Ensures Q (get_edict e vm >>= k)
unfolding get_edict
get_edict-any Q e vm k f = elim (Bool-cases (at_least e (length vm.entitypool))) [
  | inl out ↦ rw out (f (vm.entityfields * 0) (suc vm.vmerror))
  | inr within ↦ elim (Bool-cases (is_negative e)) [
    | inl below ↦ rw (within, below) tt
    | inr above ↦ rw (within, above) (f (vm.entityfields * e) vm.vmerror)
  ]
]

check_world-any :
    {B : Type 0} (Q : B → Type 0) (p : ℕ) (vm : Vm) (k : Vm → Option B)
    → ((n : ℕ) → Ensures Q (k (record vm { vmerror = n })))
    → Ensures Q (check_world p vm >>= k)
unfolding check_world
check_world-any Q p vm k f = elim (Bool-cases (ltb p vm.entityfields && not vm.allowworldwrites)) [
  | inl world ↦ elim (Bool-cases (ent_field p vm.fields)) [
    | inl found ↦ rw (world, found) (f (suc vm.vmerror))
    | inr missing ↦ rw (world, missing) tt
  ]
  | inr other ↦ rw other (f vm.vmerror)
]

-- Words of entities of the same number, and on to the next statement.
words-Effect :
    (m : Machine) (n : ℕ) (o : Option (List ℕ))
    → Ensures (SameLength m.vm.entitydata) o
    → Ensures (Effect m) (
        o >>= λ d.
        some (next (record m { vm = record m.vm { vmerror = n; entitydata = d }; pc = suc m.pc })))
words-Effect m n o h =
    bind-Ensures (SameLength m.vm.entitydata) (Effect m) o _ h
      λ d e. ((refl, refl, refl, refl, refl, refl, refl, refl, refl, e), inl (refl, refl, refl))

globals_error-Effect :
    (m : Machine) (n : ℕ) (o : Option (List ℕ))
    → Ensures (SameLength m.vm.globals) o
    → Ensures (Effect m) (
        o >>= λ g.
        some (next (record m { vm = record m.vm { vmerror = n; globals = g }; pc = suc m.pc })))
globals_error-Effect m n o h =
    bind-Ensures (SameLength m.vm.globals) (Effect m) o _ h
      λ g e. ((refl, refl, refl, refl, refl, refl, refl, refl, e, refl), inl (refl, refl, refl))

pub fail_with-Effect : (m : Machine) → Ensures (Effect m) (fail_with m)
fail_with-Effect m = (refl, refl, refl, refl, refl, refl, refl, refl, refl, refl)

module _ (m : Machine) (st : Statement) where
  pub load_word-Effect : Ensures (Effect m) (load_word m st)
  unfolding load_word
  load_word-Effect = bind-any (Effect m) (get_elem? m.vm.globals st.o1) _ λ e.
      if-both (Ensures (Effect m)) (bad_edict e m.vm) _ _ (fail_with-Effect m) (
        bind-any (Effect m) (get_elem? m.vm.globals st.o2) _ λ f.
          if-both (Ensures (Effect m)) (leb m.vm.entityfields f) _ _ (fail_with-Effect m) (
            get_edict-any (Effect m) e m.vm _ λ ed n.
              bind-any (Effect m) (get_elem? m.vm.entitydata (ed + f)) _ λ w.
                globals_error-Effect m n (write? m.vm.globals st.o3 w)
                  (write?-SameLength m.vm.globals st.o3 w)))

  pub load_vector-Effect : Ensures (Effect m) (load_vector m st)
  unfolding load_vector
  load_vector-Effect = bind-any (Effect m) (get_elem? m.vm.globals st.o1) _ λ e.
      if-both (Ensures (Effect m)) (bad_edict e m.vm) _ _ (fail_with-Effect m) (
        bind-any (Effect m) (get_elem? m.vm.globals st.o2) _ λ f.
          if-both (Ensures (Effect m)) (is_negative f || ltb m.vm.entityfields (f + 3)) _ _
            (fail_with-Effect m)
            (get_edict-any (Effect m) e m.vm _ λ ed n.
              globals_error-Effect m n (fetch_vector 3 m.vm.entitydata (ed + f) st.o3 m.vm.globals)
                (fetch_vector-SameLength 3 m.vm.entitydata (ed + f) st.o3 m.vm.globals)))

  pub address-Effect : Ensures (Effect m) (address m st)
  unfolding address
  address-Effect = bind-any (Effect m) (get_elem? m.vm.globals st.o1) _ λ e.
      if-both (Ensures (Effect m)) (bad_edict e m.vm) _ _ (fail_with-Effect m) (
        bind-any (Effect m) (get_elem? m.vm.globals st.o2) _ λ f.
          if-both (Ensures (Effect m)) (leb m.vm.entityfields f) _ _ (fail_with-Effect m) (
            get_edict-any (Effect m) e m.vm _ λ ed n.
              globals_error-Effect m n (write? m.vm.globals st.o3 ((ed + f) % 2 ^ 32))
                (write?-SameLength m.vm.globals st.o3 ((ed + f) % 2 ^ 32))))

  pub store_word-Effect : Ensures (Effect m) (store_word m st)
  unfolding store_word
  store_word-Effect = bind-any (Effect m) (get_elem? m.vm.globals st.o2) _ λ p.
      if-both (Ensures (Effect m)) (is_negative p || at_least p (length m.vm.entitydata)) _ _
        (fail_with-Effect m)
        (check_world-any (Effect m) p m.vm _ λ n.
          bind-any (Effect m) (get_elem? m.vm.globals st.o1) _ λ w.
            words-Effect m n (write? m.vm.entitydata p w) (write?-SameLength m.vm.entitydata p w))

  pub store_vector-Effect : Ensures (Effect m) (store_vector m st)
  unfolding store_vector
  store_vector-Effect = bind-any (Effect m) (get_elem? m.vm.globals st.o2) _ λ p.
      if-both (Ensures (Effect m)) (is_negative p || at_least (p + 2) (length m.vm.entitydata)) _ _
        (fail_with-Effect m)
        (check_world-any (Effect m) p m.vm _ λ n.
          words-Effect m n (fetch_vector 3 m.vm.globals st.o1 p m.vm.entitydata)
            (fetch_vector-SameLength 3 m.vm.globals st.o1 p m.vm.entitydata))

  pub state_frame-Effect : (fl : Floats) → Ensures (Effect m) (state_frame fl m st)
  unfolding state_frame
  state_frame-Effect fl =
      if-both (Ensures (Effect m)) (not m.vm.supports_state) _ _ (fail_with-Effect m) (
        bind-any (Effect m) (get_elem? m.vm.globals m.vm.global_self) _ λ self.
          get_edict-any (Effect m) self m.vm _ λ ed n.
            bind-any (Effect m) (get_elem? m.vm.globals st.o2) _ λ think.
              bind-Ensures (SameLength m.vm.entitydata) (Effect m)
                (write? m.vm.entitydata (ed + m.vm.field_think) think) _
                (write?-SameLength m.vm.entitydata (ed + m.vm.field_think) think)
                λ d e. bind-any (Effect m) (get_elem? m.vm.globals st.o1) _ λ frame.
                  bind-Ensures (SameLength d) (Effect m) (write? d (ed + m.vm.field_frame) frame) _
                    (write?-SameLength d (ed + m.vm.field_frame) frame)
                    λ d' e'. bind-any (Effect m) (get_elem? m.vm.globals m.vm.global_time) _ λ time.
                      words-Effect m n (write? d' (ed + m.vm.field_nextthink) (fl.plus_tenth time))
                        (write-then m.vm.entitydata d' _ (e' ∙ e)
                          (write?-SameLength d' (ed + m.vm.field_nextthink) (fl.plus_tenth time))))
