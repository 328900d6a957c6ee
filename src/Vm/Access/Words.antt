-- ===== src/Vm/Access/Words.antt =====
-- The words of entities as memory that is stored to through a pointer and loaded from by a field.
use gmqcc.Prelude.{
  ℕ, suc, ◌+◌, ◌*◌, ◌≤◌, ◌<◌, ◌≡◌, ◌≢◌, ◌^◌, true, false, ◌||◌, some, arith, length, get_elem?, set,
  length-set, get_elem?-set_self, get_elem?-set_ne, lt→ltb, leb, ◌⊎◌, inl, inr, ◌∙◌,
}
use gmqcc.Vm.State.{Vm, Statement}
use gmqcc.Vm.Words.{write?, is_negative, at_least}
use gmqcc.Vm.Entities.{get_edict}
use gmqcc.Vm.Entities.Pool.{IsPool, word_of, word_bound}
use gmqcc.Vm.Step.{Machine, next}
use gmqcc.Vm.Access.{bad_edict, load_word, check_world, store_word}

-- Field `f` of entity `e` is a word that the program may write: the entity is in the pool and is not
-- the world, or the world may be written. All words have an index that is not negative.
pub record IsWritable (vm : Vm) (e f : ℕ) : Type 0 where
  pub pool : IsPool vm
  pub listed : e < length vm.entitypool
  pub field : f < vm.entityfields
  pub allowed : (e ≢ 0) ⊎ (vm.allowworldwrites ≡ true)
  pub entity_range : length vm.entitypool ≤ 2 ^ 31
  pub range : length vm.entitydata ≤ 2 ^ 31

pointer_in_data :
    (vm : Vm) (e f : ℕ) → IsWritable vm e f → vm.entityfields * e + f < length vm.entitydata
pointer_in_data vm e f h =
    let b = word_bound vm.entityfields e f (length vm.entitypool) h.listed h.field in
    omega (arith, b, h.pool.sized)

not_world : (n e f : ℕ) → e ≢ 0 → n ≤ n * e + f
not_world n e f p = grind arith

check_world-Writable :
    (vm : Vm) (e f : ℕ) → IsWritable vm e f → check_world (vm.entityfields * e + f) vm ≡ some vm
unfolding check_world
check_world-Writable vm e f h = world h.allowed
  where
    world :
        (e ≢ 0) ⊎ (vm.allowworldwrites ≡ true) → check_world (vm.entityfields * e + f) vm ≡ some vm
    world (inl p) = ground (arith, not_world vm.entityfields e f p)
    world (inr p) = ground arith

-- The store of the word `w` through the pointer to a writable field.
store_word-eq :
    (m : Machine) (st : Statement) (e f w : ℕ)
    → IsWritable m.vm e f
    → get_elem? m.vm.globals st.o1 ≡ some w
    → get_elem? m.vm.globals st.o2 ≡ some (m.vm.entityfields * e + f)
    → store_word m st
      ≡ some (
          next (record m {
            vm = record m.vm { entitydata = set m.vm.entitydata (m.vm.entityfields * e + f) w };
            pc = suc m.pc;
          }))
unfolding store_word write?
store_word-eq m st e f w h at_w at_p =
    let p = m.vm.entityfields * e + f in
    let below = pointer_in_data m.vm e f h in
    let valid : (is_negative p || at_least p (length m.vm.entitydata)) ≡ false =
      ground (arith, h.range) in
    rw (at_p, valid, check_world-Writable m.vm e f h, at_w, lt→ltb p (length m.vm.entitydata) below)

-- The load of a field whose word is `w`.
load_word-eq :
    (m : Machine) (st : Statement) (e f w : ℕ)
    → IsPool m.vm
    → e < length m.vm.entitypool
    → length m.vm.entitypool ≤ 2 ^ 31
    → f < m.vm.entityfields
    → get_elem? m.vm.globals st.o1 ≡ some e
    → get_elem? m.vm.globals st.o2 ≡ some f
    → st.o3 < length m.vm.globals
    → word_of m.vm e f ≡ some w
    → load_word m st
      ≡ some (
          next
            (record m { vm = record m.vm { globals = set m.vm.globals st.o3 w }; pc = suc m.pc }))
unfolding load_word write? get_edict
load_word-eq m st e f w pool listed small field at_e at_f in_range word =
    let fine : bad_edict e m.vm ≡ false = ground (arith, pool.counted) in
    let inside : leb m.vm.entityfields f ≡ false = ground arith in
    let in_pool : at_least e (length m.vm.entitypool) ≡ false = ground arith in
    let positive : is_negative e ≡ false = ground arith in
    rw (
      at_e,
      fine,
      at_f,
      inside,
      in_pool,
      positive,
      word,
      lt→ltb st.o3 (length m.vm.globals) in_range,
    )

-- After the store of a word through the pointer to a writable field `f` of entity `e`, the load of
-- that field yields the word, and every other word of an entity is unchanged.
pub load-store_word :
    (m : Machine) (store load : Statement) (e f w : ℕ)
    → IsWritable m.vm e f
    → get_elem? m.vm.globals store.o1 ≡ some w
    → get_elem? m.vm.globals store.o2 ≡ some (m.vm.entityfields * e + f)
    → get_elem? m.vm.globals load.o1 ≡ some e
    → get_elem? m.vm.globals load.o2 ≡ some f
    → load.o3 < length m.vm.globals
    → (m' m'' : Machine) × (store_word m store ≡ some (next m'))
      × (load_word m' load ≡ some (next m''))
      × (get_elem? m''.vm.globals load.o3 ≡ some w)
      × ((i : ℕ)
          → m.vm.entityfields * e + f ≢ i
          → get_elem? m''.vm.entitydata i ≡ get_elem? m.vm.entitydata i)
load-store_word m store load e f w h at_w at_p at_e at_f in_range =
    let p = m.vm.entityfields * e + f in
    let data' = set m.vm.entitydata p w in
    let m' : Machine = record m { vm = record m.vm { entitydata = data' }; pc = suc m.pc } in
    let pool' : IsPool m'.vm = record {
      counted = h.pool.counted;
      sized = length-set m.vm.entitydata p w ∙ h.pool.sized;
    } in
    (
      m',
      record m' { vm = record m'.vm { globals = set m.vm.globals load.o3 w }; pc = suc m'.pc },
      store_word-eq m store e f w h at_w at_p,
      load_word-eq m' load e f w pool' h.listed h.entity_range h.field at_e at_f in_range
          (get_elem?-set_self m.vm.entitydata p w (pointer_in_data m.vm e f h)),
      get_elem?-set_self m.vm.globals load.o3 w in_range,
      λ i n. get_elem?-set_ne m.vm.entitydata w n,
    )
