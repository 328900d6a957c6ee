-- ===== src/Fold/Pool.antt =====
-- The tables of floats and vectors of fold.cpp: how a new constant is entered.
use gmqcc.Prelude.{
  ℕ, zero, suc, ◌<◌, ◌≡◌, ◌≢◌, ◌⊎◌, refl, sym, ap, ◌∙◌, Bool, true, false, List, [], ◌∷◌, ◌++◌,
  none, some, inl, inr, arith, ◌==◌, ==_iff, Bool-cases, Option-cases, length, get_elem?,
  append_assoc, append-nil,
}
use gmqcc.Vm.Step.{Floats}
use gmqcc.Vm.Exec.{same_vector}
use gmqcc.Fold.{
  AstValue, immvalue_float, Folder, find_float, float_value, constgen_float, find_vector,
  vector_value, constgen_vector, Diagnostic, report,
}

-- What `fold::fold` enters first, which the folding then takes by their places.
abbrev pub first_floats : List AstValue
first_floats =
    float_value 0 false
    ∷ (float_value 0x3F80_0000 false
        ∷ (float_value 0xBF80_0000 false ∷ (float_value 0x4000_0000 false ∷ [])))

module _ {A : Type 0} where
  pub get_elem?-snoc :
      (xs : List A) (a : A) (i : ℕ) (v : A)
      → get_elem? (xs ++ (a ∷ [])) i ≡ some v
      → (get_elem? xs i ≡ some v) ⊎ ((i ≡ length xs) × (v ≡ a))
  get_elem?-snoc [] a zero v h = inr (refl, cc h)
  get_elem?-snoc [] a (suc i) v h = absurd (cc h)
  get_elem?-snoc (x ∷ xs) a zero v h = inl h
  get_elem?-snoc (x ∷ xs) a (suc i) v h = elim (get_elem?-snoc xs a i v h) [
    | inl found ↦ inl found
    | inr (e, e') ↦ inr (ap suc e, e')
  ]

  pub get_elem?-within : (xs : List A) (i : ℕ) (v : A) → get_elem? xs i ≡ some v → i < length xs
  get_elem?-within [] i v h = absurd (cc h)
  get_elem?-within (x ∷ xs) zero v h = omega arith
  get_elem?-within (x ∷ xs) (suc i) v h = let ih = get_elem?-within xs i v h in omega arith

find_float-none :
    (value : ℕ) (vs : List AstValue) (i : ℕ) (v : AstValue)
    → find_float value vs ≡ none
    → get_elem? vs i ≡ some v
    → immvalue_float v ≢ value
unfolding find_float
find_float-none value [] i v h k = absurd (cc k)
find_float-none value (x ∷ vs) zero v h k = ground arith
find_float-none value (x ∷ vs) (suc i) v h k = elim (Bool-cases (immvalue_float x == value)) [
  | inl e ↦ absurd (cc (rw e at h))
  | inr e ↦ find_float-none value vs i v (rw e at h) k
]

pub find_float-some :
    (value : ℕ) (vs : List AstValue) (v : AstValue)
    → find_float value vs ≡ some v
    → (i : ℕ) × (get_elem? vs i ≡ some v) × (immvalue_float v ≡ value)
unfolding find_float
find_float-some value [] v h = absurd (cc h)
find_float-some value (x ∷ vs) v h = elim (Bool-cases (immvalue_float x == value)) [
  | inl e ↦ let same : some x ≡ some v = rw e at h in (0, same, cc (same, (==_iff _ _).0 e))
  | inr e ↦ let ih = find_float-some value vs v (rw e at h) in (suc ih.0, ih.1, ih.2)
]

find_vector-some :
    (fl : Floats) (value : ℕ × ℕ × ℕ) (vs : List AstValue) (v : AstValue)
    → find_vector fl value vs ≡ some v
    → (i : ℕ) × (get_elem? vs i ≡ some v) × (same_vector fl v.vvec value ≡ true)
unfolding find_vector
find_vector-some fl value [] v h = absurd (cc h)
find_vector-some fl value (x ∷ vs) v h = elim (Bool-cases (same_vector fl x.vvec value)) [
  | inl e ↦ let same : some x ≡ some v = rw e at h in (0, same, cc (same, e))
  | inr e ↦ let ih = find_vector-some fl value vs v (rw e at h) in (suc ih.0, ih.1, ih.2)
]

-- The tables: the first floats are in place, all values are float or vector constants with the name
-- "#IMMEDIATE", and no two floats have the same bits.
pub record IsPool (f : Folder) : Type 0 where
  pub first : (rest : List AstValue) × (f.imm_float ≡ first_floats ++ rest)
  pub a_float :
      (i : ℕ) (v : AstValue)
      → get_elem? f.imm_float i ≡ some v
      → v ≡ float_value (immvalue_float v) v.inexact
  pub once :
      (i j : ℕ) (v w : AstValue)
      → get_elem? f.imm_float i ≡ some v
      → get_elem? f.imm_float j ≡ some w
      → immvalue_float v ≡ immvalue_float w
      → i ≡ j
  pub a_vector :
      (i : ℕ) (v : AstValue) → get_elem? f.imm_vector i ≡ some v → v ≡ vector_value v.vvec

-- The state after one that had these tables: they are extended at their ends.
pub record Extends (f₀ f : Folder) : Type 0 where
  pub pool : IsPool f
  pub floats : (rest : List AstValue) × (f.imm_float ≡ f₀.imm_float ++ rest)
  pub vectors : (rest : List AstValue) × (f.imm_vector ≡ f₀.imm_vector ++ rest)

pub Extends_refl : {f : Folder} → IsPool f → Extends f f
Extends_refl h = record {
  pool = h;
  floats = ([], sym (append-nil _));
  vectors = ([], sym (append-nil _));
}

snoc-IsPool :
    {f : Folder} (value : ℕ) (inexact : Bool)
    → IsPool f
    → find_float value f.imm_float ≡ none
    → IsPool (record f { imm_float = f.imm_float ++ (float_value value inexact ∷ []) })
snoc-IsPool {f} value inexact h missing = record {
  first = (
    h.first.0 ++ (float_value value inexact ∷ []),
    ap (λ vs. vs ++ (float_value value inexact ∷ [])) h.first.1
        ∙ append_assoc first_floats h.first.0 (float_value value inexact ∷ []),
  );
  a_float = λ i v k. elim (get_elem?-snoc f.imm_float _ i v k) [
    | inl old ↦ h.a_float i v old
    | inr (_, new) ↦ rw new refl
  ];
  once = λ i j v w k l e. elim (get_elem?-snoc f.imm_float _ i v k) [
    | inl old ↦ elim (get_elem?-snoc f.imm_float _ j w l) [
      | inl old' ↦ h.once i j v w old old' e
      | inr (_, new') ↦
          absurd (find_float-none value f.imm_float i v missing old (e ∙ ap immvalue_float new'))
    ]
    | inr (at, new) ↦ elim (get_elem?-snoc f.imm_float _ j w l) [
      | inl old' ↦
          absurd
            (find_float-none value f.imm_float j w missing old' (sym e ∙ ap immvalue_float new))
      | inr (at', new') ↦ cc (at, at')
    ]
  ];
  a_vector = h.a_vector;
}

snoc-IsPool_vector :
    {f : Folder} (value : ℕ × ℕ × ℕ)
    → IsPool f
    → IsPool (record f { imm_vector = f.imm_vector ++ (vector_value value ∷ []) })
snoc-IsPool_vector {f} value h = record {
  first = h.first;
  a_float = h.a_float;
  once = h.once;
  a_vector = λ i v k. elim (get_elem?-snoc f.imm_vector _ i v k) [
    | inl old ↦ h.a_vector i v old
    | inr (_, new) ↦ rw new refl
  ];
}

-- A table that is extended, and then extended by one value.
longer :
    (xs : List AstValue) {ys : List AstValue} (v : AstValue)
    → (rest : List AstValue) × (ys ≡ xs ++ rest)
    → (rest : List AstValue) × (ys ++ (v ∷ []) ≡ xs ++ rest)
longer xs v (rest, e) =
    (rest ++ (v ∷ []), ap (λ zs. zs ++ (v ∷ [])) e ∙ append_assoc xs rest (v ∷ []))

pub constgen_float-Extends :
    {f₀ f : Folder} (value : ℕ) (inexact : Bool)
    → Extends f₀ f
    → Extends f₀ (constgen_float value inexact f).0
unfolding constgen_float
constgen_float-Extends {f = f} value inexact h =
    elim (Option-cases (find_float value f.imm_float)) [
      | inl missing ↦ rw missing (record {
        pool = snoc-IsPool value inexact h.pool missing;
        floats = longer _ _ h.floats;
        vectors = h.vectors;
      })
      | inr (v, found) ↦ rw found h
    ]

pub constgen_vector-Extends :
    {f₀ f : Folder} (fl : Floats) (value : ℕ × ℕ × ℕ)
    → Extends f₀ f
    → Extends f₀ (constgen_vector fl value f).0
unfolding constgen_vector
constgen_vector-Extends {f = f} fl value h =
    elim (Option-cases (find_vector fl value f.imm_vector)) [
      | inl missing ↦ rw missing (record {
        pool = snoc-IsPool_vector value h.pool;
        floats = h.floats;
        vectors = longer _ _ h.vectors;
      })
      | inr (v, found) ↦ rw found h
    ]

-- The constant of a float has its bits, and is a float constant.
pub constgen_float_value :
    {f : Folder} (value : ℕ) (inexact : Bool)
    → IsPool f
    → (inexact' : Bool) × ((constgen_float value inexact f).1 ≡ float_value value inexact')
unfolding constgen_float
constgen_float_value {f} value inexact h = elim (Option-cases (find_float value f.imm_float)) [
  | inl missing ↦ (inexact, rw missing refl)
  | inr (v, found) ↦
      let (i, at, same) = find_float-some value f.imm_float v found in
      (v.inexact, rw found (h.a_float i v at ∙ rw same refl))
]

-- A state with the same tables.
pub same_tables :
    {f₀ : Folder} (f f' : Folder)
    → f'.imm_float ≡ f.imm_float
    → f'.imm_vector ≡ f.imm_vector
    → Extends f₀ f
    → Extends f₀ f'
same_tables f f' p q h = record {
  pool = record {
    first = (h.pool.first.0, p ∙ h.pool.first.1);
    a_float = λ i v k. h.pool.a_float i v (rw p at k);
    once = λ i j v w k l. h.pool.once i j v w (rw p at k) (rw p at l);
    a_vector = λ i v k. h.pool.a_vector i v (rw q at k);
  };
  floats = (h.floats.0, p ∙ h.floats.1);
  vectors = (h.vectors.0, q ∙ h.vectors.1);
}

pub report-Extends : {f₀ f : Folder} (d : Diagnostic) → Extends f₀ f → Extends f₀ (report d f)
report-Extends {f = f} d h = same_tables f (report d f) refl refl h
