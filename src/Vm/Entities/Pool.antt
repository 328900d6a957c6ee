-- ===== src/Vm/Entities/Pool.antt =====
-- The pool, the count and the words of the entities under `prog_spawn_entity` and
-- `prog_free_entity`.
use native.Mathlib.Nat.{le_trans, le-add_right}
use mathlib.Core.Option.{some-injective}
use gmqcc.Prelude.{
  ℕ, suc, ◌+◌, ◌*◌, ◌≤◌, ◌<◌, ◌≡◌, ◌≢◌, refl, Bool, true, false, List, [], ◌∷◌, ◌++◌, Option, some,
  arith, length, get_elem?, set, replicate, length-append, length-replicate, ap,
  get_elem?-append_left, get_elem?-append_right, get_elem?-replicate, ◌⊎◌, inl, inr, ◌∙◌,
  Option-cases, ◌^◌, Bool-cases, leb, ℕ_discrete, get_elem?-set_self, dec_lt, subst,
}
use gmqcc.Vm.State.{Vm, error_once}
use gmqcc.Vm.Words.Blocks.{write_block-IsWritten, get_elem?-some}
use gmqcc.Vm.Entities.{find_free, clear_entity, append_entity, spawn_at, spawn_entity, free_entity}

-- The word of field `f` of entity `e`.
abbrev pub word_of : Vm → ℕ → ℕ → Option ℕ
word_of vm e f = get_elem? vm.entitydata (vm.entityfields * e + f)

-- Each entity of the pool has its words, and `entities` counts them.
pub record IsPool (vm : Vm) : Type 0 where
  pub counted : vm.entities ≡ length vm.entitypool
  pub sized : length vm.entitydata ≡ vm.entityfields * length vm.entitypool

find_free-lt :
    (e₀ : ℕ) (pool : List Bool) (e : ℕ)
    → find_free e₀ pool ≡ some e
    → (e₀ ≤ e) × (e < e₀ + length pool)
unfolding find_free
find_free-lt e₀ [] e h = cc
find_free-lt e₀ (true ∷ pool) e h = omega (arith, find_free-lt (suc e₀) pool e h)
find_free-lt e₀ (false ∷ pool) e h = ground arith

pub word_bound : (n e f k : ℕ) → e < k → f < n → n * e + f < n * k
word_bound n e f k p q = grind arith

block_bound : (n e k : ℕ) → e < k → n * e + n ≤ n * k
block_bound n e k p = grind arith

words_apart : (n e d f : ℕ) → f < n → d ≢ e → (n * d + f < n * e) ⊎ (n * e + n ≤ n * d + f)
words_apart n e d f p q = elim (dec_lt d e) [
  | yes less ↦ inl (word_bound n d f e less p)
  | no more ↦ inr (le_trans (block_bound n e d (omega arith)) (le-add_right (n * d) f))
]

-- What a spawn promises: the entity `e` of `vm'` is in the pool with all its words 0, the other
-- entities of `vm` keep their words, and the pool stays in step.
pub record IsSpawned (vm : Vm) (e : ℕ) (vm' : Vm) : Type 0 where
  pub pool : IsPool vm'
  pub fields : vm'.entityfields ≡ vm.entityfields
  pub listed : e < length vm'.entitypool
  pub grows : length vm.entitypool ≤ length vm'.entitypool
  pub cleared : (f : ℕ) → f < vm.entityfields → word_of vm' e f ≡ some 0
  pub kept :
      (d f : ℕ)
      → d ≢ e
      → d < length vm.entitypool
      → f < vm.entityfields
      → word_of vm' d f ≡ word_of vm d f

clear_entity-IsSpawned :
    (vm : Vm) (e : ℕ)
    → IsPool vm
    → e < length vm.entitypool
    → (vm' : Vm) × (clear_entity e vm ≡ some vm')
      × IsSpawned vm e vm'
      × (vm'.entitypool ≡ vm.entitypool)
unfolding clear_entity
clear_entity-IsSpawned vm e h p =
    let n = vm.entityfields in
    let zeros : List ℕ = replicate n 0 in
    let size : length zeros ≡ n = length-replicate n 0 in
    let bound = block_bound n e (length vm.entitypool) p in
    let r =
      write_block-IsWritten vm.entitydata (n * e) zeros (omega (arith, size, bound, h.sized)) in
    (
      record vm { entitydata = r.0 },
      rw r.1,
      record {
        pool = record { counted = h.counted; sized = r.2.same_length ∙ h.sized };
        fields = refl;
        listed = p;
        grows = omega arith;
        cleared = λ f q. r.2.inside f 0 (get_elem?-replicate n 0 f q);
        kept = λ d f q l m. r.2.outside (n * d + f) (rw size (words_apart n e d f m q));
      },
      refl,
    )

append_entity-IsSpawned :
    (vm : Vm) → IsPool vm → IsSpawned vm (length vm.entitypool) (append_entity vm)
unfolding append_entity
append_entity-IsSpawned vm h =
    let n = vm.entityfields in
    let k = length vm.entitypool in
    let longer : length (vm.entitypool ++ true ∷ []) ≡ k + 1 =
      length-append vm.entitypool (true ∷ []) in
    record {
      pool = record {
        counted = omega (arith, longer, h.counted);
        sized = omega (
          arith,
          length-append vm.entitydata (replicate n 0),
          length-replicate {A = ℕ} n 0,
          h.sized,
          ap (λ (t : ℕ). n * t) longer,
        );
      };
      fields = refl;
      listed = omega (arith, longer);
      grows = omega (arith, longer);
      cleared = λ f q.
          subst (λ i. get_elem? (vm.entitydata ++ replicate n 0) (i + f) ≡ some 0) h.sized
            (get_elem?-append_right vm.entitydata (replicate n 0) f ∙ get_elem?-replicate n 0 f q);
      kept = λ d f q l m.
          get_elem?-append_left vm.entitydata (replicate n 0) (n * d + f)
            (let b = word_bound n d f k l m in omega (arith, b, h.sized));
    }

-- `prog_spawn_entity` on a pool in step always returns an entity: it is listed, its words are 0, the
-- other entities keep their words, and the pool stays in step.
pub spawn_entity-IsSpawned :
    (vm : Vm)
    → IsPool vm
    → (e : ℕ) × (vm' : Vm) × (spawn_entity vm ≡ some (e, vm')) × IsSpawned vm e vm'
unfolding spawn_entity spawn_at
spawn_entity-IsSpawned vm h = elim (Option-cases (find_free 0 vm.entitypool)) [
  | inl full ↦ (length vm.entitypool, append_entity vm, rw full, append_entity-IsSpawned vm h)
  | inr (e, free) ↦
      let below = find_free-lt 0 vm.entitypool e free in
      let r = clear_entity-IsSpawned vm e h (omega (arith, below.1)) in
      (e, r.0, rw (free, r.1), r.2)
]

-- A spawn that takes an entity of the pool leaves it marked as not in use: the next spawn returns
-- the same entity again.
pub spawn_entity_again :
    (vm vm' : Vm) (e : ℕ)
    → IsPool vm
    → spawn_entity vm ≡ some (e, vm')
    → e < length vm.entitypool
    → (vm'' : Vm) × (spawn_entity vm' ≡ some (e, vm''))
unfolding spawn_entity spawn_at
spawn_entity_again vm vm' e h s p = elim (Option-cases (find_free 0 vm.entitypool)) [
  | inl full ↦ absurd (at_end (rw full at s))
  | inr (d, free) ↦
      let below = find_free-lt 0 vm.entitypool d free in
      let r = clear_entity-IsSpawned vm d h (omega (arith, below.1)) in
      let t = clear_entity-IsSpawned r.0 d r.2.pool (rw r.3 (omega (arith, below.1))) in
      let same : ◌≡◌ {A = Option (ℕ × Vm)} (some (d, r.0)) (some (e, vm')) = rw (free, r.1) at s in
      subst (λ (q : ℕ × Vm). (vm'' : Vm) × (spawn_entity q.1 ≡ some (q.0, vm'')))
        (some-injective (d, r.0) (e, vm') same) (t.0, rw (r.3, free, t.1))
]
  where
    at_end :
        ◌≡◌ {A = Option (ℕ × Vm)} (some (length vm.entitypool, append_entity vm)) (some (e, vm'))
        → ⊥
    at_end q = ground arith

-- The entity `e` is in use in `vm`, and `vm'` differs in that it is not.
pub record IsFreed (vm : Vm) (e : ℕ) (vm' : Vm) : Type 0 where
  pub not_world : e ≢ 0
  pub was_used : get_elem? vm.entitypool e ≡ some true
  pub only_pool : vm' ≡ record vm { entitypool = set vm.entitypool e false }
  pub unused : get_elem? vm'.entitypool e ≡ some false

-- The world entity, a number outside of the pool, and an entity that is not in use.
abbrev pub CannotFree : Vm → ℕ → Type 0
CannotFree vm e = (e ≡ 0) ⊎ (length vm.entitypool ≤ e) ⊎ (get_elem? vm.entitypool e ≡ some false)

free_entity_used :
    (vm : Vm) (e : ℕ)
    → e < 2 ^ 31
    → e ≢ 0
    → get_elem? vm.entitypool e ≡ some true
    → e < length vm.entitypool
    → free_entity e vm ≡ some (record vm { entitypool = set vm.entitypool e false })
unfolding free_entity
free_entity_used vm e p q r l = ground arith

free_entity_unused :
    (vm : Vm) (e : ℕ) → e < 2 ^ 31 → CannotFree vm e → free_entity e vm ≡ some (error_once vm)
unfolding free_entity
free_entity_unused vm e p (inl w) = ground arith
free_entity_unused vm e p (inr (inl w)) = ground arith
free_entity_unused vm e p (inr (inr w)) = elim (Bool-cases (leb (length vm.entitypool) e)) [
  | inl a ↦ ground arith
  | inr a ↦ ground arith
]

-- `prog_free_entity` of a number that is not negative either takes a used entity, not the world,
-- out of the pool and changes nothing else, or counts an error and changes nothing else, for the
-- world, a number outside of the pool and an entity that is not in use.
pub free_entity-IsFreed :
    (vm : Vm) (e : ℕ)
    → e < 2 ^ 31
    → ((vm' : Vm) × (free_entity e vm ≡ some vm') × IsFreed vm e vm')
      ⊎ (CannotFree vm e × (free_entity e vm ≡ some (error_once vm)))
free_entity-IsFreed vm e p = elim (dec_lt e (length vm.entitypool)) [
  | no out ↦
      let c : CannotFree vm e = inr (inl (omega arith)) in inr (c, free_entity_unused vm e p c)
  | yes within ↦ elim (ℕ_discrete e 0) [
    | yes world ↦ let c : CannotFree vm e = inl world in inr (c, free_entity_unused vm e p c)
    | no other ↦ used (get_elem?-some vm.entitypool e within) within other
  ]
]
  where
    used :
        (b : Bool) × (get_elem? vm.entitypool e ≡ some b)
        → e < length vm.entitypool
        → e ≢ 0
        → ((vm' : Vm) × (free_entity e vm ≡ some vm') × IsFreed vm e vm')
          ⊎ (CannotFree vm e × (free_entity e vm ≡ some (error_once vm)))
    used (true, at) within other = inl (
      record vm { entitypool = set vm.entitypool e false },
      free_entity_used vm e p other at within,
      record {
        not_world = other;
        was_used = at;
        only_pool = refl;
        unused = get_elem?-set_self vm.entitypool e false within;
      },
    )
    used (false, at) within other =
        let c : CannotFree vm e = inr (inr at) in inr (c, free_entity_unused vm e p c)
