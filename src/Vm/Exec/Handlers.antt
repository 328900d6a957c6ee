-- ===== src/Vm/Exec/Handlers.antt =====
-- The effect of each instruction that is no call.
use gmqcc.Prelude.{
  ℕ, zero, suc, refl, Bool, true, List, [], ◌∷◌, Option, none, some, get_elem?, ◌==◌, if-both, ◌∙◌,
}
use gmqcc.Vm.State.{Statement}
use gmqcc.Vm.Words.{write?, write_block}
use gmqcc.Vm.Strings.{get_string}
use gmqcc.Vm.Frames.{copy_words}
use gmqcc.Vm.Step.{
  Floats, Machine, put_c, unary, binary, compare_strings, same_bytes, of_bool, vector_at,
  from_vectors, each_word, to_vector, scale, scale_vector, store_words,
}
use gmqcc.Vm.Access.{fetch_vector}
use gmqcc.Vm.Exec.{not_vector, not_string, is_empty_string, same_vector}
use gmqcc.Vm.Exec.Effect.{
  Ensures, bind-Ensures, bind-any, SameLength, write?-SameLength, Effect, globals-Effect,
  put_c-Effect,
}

module _ (m : Machine) (st : Statement) where
  pub unary-Effect : (f : ℕ → ℕ) → Ensures (Effect m) (unary f m st)
  unfolding unary
  unary-Effect f = bind-any (Effect m) (get_elem? m.vm.globals st.o1) _ λ a. put_c-Effect m st (f a)

  pub binary-Effect : (f : ℕ → ℕ → ℕ) → Ensures (Effect m) (binary f m st)
  unfolding binary
  binary-Effect f =
      bind-any (Effect m) (get_elem? m.vm.globals st.o1) _
        λ a. bind-any (Effect m) (get_elem? m.vm.globals st.o2) _ λ b. put_c-Effect m st (f a b)

  pub compare_strings-Effect : (f : Bool → Bool) → Ensures (Effect m) (compare_strings f m st)
  unfolding compare_strings
  compare_strings-Effect f = bind-any (Effect m) (get_elem? m.vm.globals st.o1) _ λ a.
      bind-any (Effect m) (get_elem? m.vm.globals st.o2) _ λ b.
        bind-any (Effect m) (get_string a m.vm) _ λ s.
          bind-any (Effect m) (get_string b m.vm) _
            λ t. put_c-Effect m st (of_bool (f (same_bytes s t)))

  pub from_vectors-Effect :
      (f : ℕ × ℕ × ℕ → ℕ × ℕ × ℕ → ℕ) → Ensures (Effect m) (from_vectors f m st)
  unfolding from_vectors
  from_vectors-Effect f =
      bind-any (Effect m) (vector_at m.vm.globals st.o1) _
        λ a. bind-any (Effect m) (vector_at m.vm.globals st.o2) _ λ b. put_c-Effect m st (f a b)

  pub not_vector-Effect : (fl : Floats) → Ensures (Effect m) (not_vector fl m st)
  unfolding not_vector
  not_vector-Effect fl =
      bind-any (Effect m) (vector_at m.vm.globals st.o1) _
        λ a. put_c-Effect m st (of_bool (same_vector fl a (0, 0, 0)))

  pub not_string-Effect : Ensures (Effect m) (not_string m st)
  unfolding not_string
  not_string-Effect = bind-any (Effect m) (get_elem? m.vm.globals st.o1) _ λ a.
      if-both (Ensures (Effect m)) (a == 0) (put_c m st (of_bool true)) _
        (put_c-Effect m st (of_bool true))
        (bind-any (Effect m) (get_string a m.vm) _
          λ s. put_c-Effect m st (of_bool (is_empty_string s)))

-- Copies keep the length of what they write to.
pub write-then :
    (g g' : List ℕ) (o : Option (List ℕ))
    → SameLength g g'
    → Ensures (SameLength g') o
    → Ensures (SameLength g) o
write-then g g' none e h = tt
write-then g g' (some g'') e h = h ∙ e

pub copy_words-SameLength :
    (n src dst : ℕ) (g : List ℕ) → Ensures (SameLength g) (copy_words n src dst g)
unfolding copy_words
copy_words-SameLength zero src dst g = refl
copy_words-SameLength (suc n) src dst g = bind-any (SameLength g) (get_elem? g src) _ λ w.
    bind-Ensures (SameLength g) (SameLength g) (write? g dst w) _ (write?-SameLength g dst w)
      λ g' e. write-then g g' _ e (copy_words-SameLength n (suc src) (suc dst) g')

each_word-SameLength :
    (n : ℕ) (f : ℕ → ℕ → ℕ) (a b c : ℕ) (g : List ℕ)
    → Ensures (SameLength g) (each_word n f a b c g)
unfolding each_word
each_word-SameLength zero f a b c g = refl
each_word-SameLength (suc n) f a b c g = bind-any (SameLength g) (get_elem? g a) _ λ x.
    bind-any (SameLength g) (get_elem? g b) _ λ y.
      bind-Ensures (SameLength g) (SameLength g) (write? g c (f x y)) _
        (write?-SameLength g c (f x y))
        λ g' e. write-then g g' _ e (each_word-SameLength n f (suc a) (suc b) (suc c) g')

scale-SameLength :
    (n : ℕ) (f : ℕ → ℕ → ℕ) (w src c : ℕ) (g : List ℕ)
    → Ensures (SameLength g) (scale n f w src c g)
unfolding scale
scale-SameLength zero f w src c g = refl
scale-SameLength (suc n) f w src c g = bind-any (SameLength g) (get_elem? g src) _ λ x.
    bind-Ensures (SameLength g) (SameLength g) (write? g c (f w x)) _
      (write?-SameLength g c (f w x))
      λ g' e. write-then g g' _ e (scale-SameLength n f w (suc src) (suc c) g')

pub fetch_vector-SameLength :
    (n : ℕ) (words : List ℕ) (src dst : ℕ) (g : List ℕ)
    → Ensures (SameLength g) (fetch_vector n words src dst g)
unfolding fetch_vector
fetch_vector-SameLength zero words src dst g = refl
fetch_vector-SameLength (suc n) words src dst g =
    bind-any (SameLength g) (get_elem? words src) _ λ w.
      bind-Ensures (SameLength g) (SameLength g) (write? g dst w) _ (write?-SameLength g dst w)
        λ g' e. write-then g g' _ e (fetch_vector-SameLength n words (suc src) (suc dst) g')

pub write_block-SameLength :
    (g : List ℕ) (i : ℕ) (ws : List ℕ) → Ensures (SameLength g) (write_block g i ws)
unfolding write_block
write_block-SameLength g i [] = refl
write_block-SameLength g i (w ∷ ws) =
    bind-Ensures (SameLength g) (SameLength g) (write? g i w) _ (write?-SameLength g i w)
      λ g' e. write-then g g' _ e (write_block-SameLength g' (suc i) ws)

module _ (m : Machine) (st : Statement) where
  pub to_vector-Effect : (f : ℕ → ℕ → ℕ) → Ensures (Effect m) (to_vector f m st)
  unfolding to_vector
  to_vector-Effect f =
      globals-Effect m (each_word 3 f st.o1 st.o2 st.o3 m.vm.globals)
        (each_word-SameLength 3 f st.o1 st.o2 st.o3 m.vm.globals)

  pub scale_vector-Effect :
      (f : ℕ → ℕ → ℕ) (factor src : ℕ) → Ensures (Effect m) (scale_vector f factor src m st)
  unfolding scale_vector
  scale_vector-Effect f factor src = bind-any (Effect m) (get_elem? m.vm.globals factor) _ λ w.
      globals-Effect m (scale 3 f w src st.o3 m.vm.globals)
        (scale-SameLength 3 f w src st.o3 m.vm.globals)

  pub store_words-Effect : (n : ℕ) → Ensures (Effect m) (store_words n m st)
  unfolding store_words
  store_words-Effect n =
      globals-Effect m (copy_words n st.o1 st.o2 m.vm.globals)
        (copy_words-SameLength n st.o1 st.o2 m.vm.globals)
