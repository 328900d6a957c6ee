-- ===== src/Fold/Initial.antt =====
-- The tables as the constructor of `fold` leaves them.
use gmqcc.Prelude.{
  ℕ, zero, suc, ◌<◌, ◌≡◌, refl, sym, ap, ◌∙◌, arith, Bool, true, false, List, [], Option, some,
  ◌==◌, if◌then◌else◌, Option-cases, inl, inr, length, get_elem?, replicate, length-replicate,
  get_elem?-replicate,
}
use gmqcc.Vm.Step.{Floats}
use gmqcc.Table.{Node, HashTable, hthash, htget, htgeth, htnew, get_in}
use gmqcc.Table.Lookup.{hthash-lt}
use gmqcc.Fold.{
  AstValue, Folder, immvalue_float, float_value, find_float, constgen_float, find_vector,
  constgen_vector, empty_fold, new_fold,
}
use gmqcc.Fold.Pool.{IsPool, Extends_refl, first_floats, constgen_vector-Extends}
use gmqcc.Fold.Intern.{IsInterned}

-- The place of a float that is entered first.
place : ℕ → ℕ
place w = if w == 0 then 0 else if w == 0x3F80_0000 then 1 else if w == 0xBF80_0000 then 2 else 3

first-float :
    (i : ℕ) (v : AstValue)
    → get_elem? first_floats i ≡ some v
    → (v ≡ float_value (immvalue_float v) v.inexact) × (place (immvalue_float v) ≡ i)
unfolding place
first-float zero v h = let e : v ≡ float_value 0 false = cc h in (rw e refl, rw e refl)
first-float (suc zero) v h =
    let e : v ≡ float_value 0x3F80_0000 false = cc h in (rw e refl, rw e refl)
first-float (suc (suc zero)) v h =
    let e : v ≡ float_value 0xBF80_0000 false = cc h in (rw e refl, rw e refl)
first-float (suc (suc (suc zero))) v h =
    let e : v ≡ float_value 0x4000_0000 false = cc h in (rw e refl, rw e refl)
first-float (suc (suc (suc (suc i)))) v h = absurd (cc h)

first-IsPool : (f : Folder) → f.imm_float ≡ first_floats → f.imm_vector ≡ [] → IsPool f
first-IsPool f p q = record {
  first = ([], p);
  a_float = λ i v h. (first-float i v (rw p at h)).0;
  once = λ i j v w h k e.
      sym (first-float i v (rw p at h)).1 ∙ ap place e ∙ (first-float j w (rw p at k)).1;
  a_vector = λ i v h. absurd (cc (rw q at h));
}

-- A table with nothing in it.
htget-empty :
    (n : ℕ) (str : List ℕ)
    → htget (record { size = suc n; table = replicate (suc n) [] }) str ≡ some 0
unfolding htget htgeth get_in
htget-empty n str =
    rw
      (get_elem?-replicate {A = List Node} (suc n) []
        (hthash (record { size = suc n; table = replicate (suc n) [] }) str)
        (hthash-lt (record { size = suc n; table = replicate (suc n) [] }) str (omega arith)))
      refl

-- A state without strings.
record IsFresh (f : Folder) : Type 0 where
  pub strings : f.imm_string ≡ []
  pub untranslated : (str : List ℕ) → htget f.untranslate str ≡ some 0
  pub untranslated_size : 0 < f.untranslate.size
  pub untranslated_bins : length f.untranslate.table ≡ f.untranslate.size
  pub translated : (str : List ℕ) → htget f.dotranslated str ≡ some 0
  pub translated_size : 0 < f.dotranslated.size
  pub translated_bins : length f.dotranslated.table ≡ f.dotranslated.size

nothing : {o : Option ℕ} {n : ℕ} → o ≡ some n → o ≡ some 0 → n ≡ 0
nothing p q = cc (p, q)

IsFresh-IsInterned : (f : Folder) (t : Bool) → IsFresh f → IsInterned t f
IsFresh-IsInterned f true h = record {
  size = h.untranslated_size;
  bins = h.untranslated_bins;
  entry = λ str n found some_n. absurd (some_n (nothing found (h.untranslated str)));
}
IsFresh-IsInterned f false h = record {
  size = h.translated_size;
  bins = h.translated_bins;
  entry = λ str n found some_n. absurd (some_n (nothing found (h.translated str)));
}

constgen_vector-IsFresh :
    (fl : Floats) (value : ℕ × ℕ × ℕ) (f : Folder)
    → IsFresh f
    → IsFresh (constgen_vector fl value f).0
unfolding constgen_vector
constgen_vector-IsFresh fl value f h = elim (Option-cases (find_vector fl value f.imm_vector)) [
  | inl missing ↦ rw missing (record {
    strings = h.strings;
    untranslated = h.untranslated;
    untranslated_size = h.untranslated_size;
    untranslated_bins = h.untranslated_bins;
    translated = h.translated;
    translated_size = h.translated_size;
    translated_bins = h.translated_bins;
  })
  | inr (v, found) ↦ rw found h
]

table : HashTable
table = record { size = 1024; table = replicate 1024 [] }

with_floats : Folder
with_floats = record (empty_fold table table) { imm_float = first_floats }

with_floats-IsFresh : IsFresh with_floats
unfolding with_floats table
with_floats-IsFresh = record {
  strings = refl;
  untranslated = htget-empty 1023;
  untranslated_size = omega arith;
  untranslated_bins = length-replicate {A = List Node} 1024 [];
  translated = htget-empty 1023;
  translated_size = omega arith;
  translated_bins = length-replicate {A = List Node} 1024 [];
}

with_floats-IsPool : IsPool with_floats
unfolding with_floats
with_floats-IsPool = first-IsPool _ refl refl

with_vectors : Floats → Folder
with_vectors fl =
    (constgen_vector fl (0xBF80_0000, 0xBF80_0000, 0xBF80_0000)
      (constgen_vector fl (0, 0, 0) with_floats).0).0

new_fold_lem : (fl : Floats) → new_fold fl ≡ some (with_vectors fl)
unfolding new_fold with_vectors with_floats table htnew constgen_float find_float
new_fold_lem fl = refl

-- The constructor of `fold` makes tables with 0, 1, -1 and 2 in the first four places, with float and
-- vector constants only and no two floats with the same bits, whatever the machine's comparison of
-- vectors does, and what either table of strings finds is a constant of its text.
pub new_fold-IsPool :
    (fl : Floats) → (f : Folder) × (new_fold fl ≡ some f) × IsPool f × ((t : Bool) → IsInterned t f)
unfolding with_vectors
new_fold-IsPool fl =
    let zeros = constgen_vector-Extends fl (0, 0, 0) (Extends_refl with_floats-IsPool) in
    let fresh =
      constgen_vector-IsFresh fl (0xBF80_0000, 0xBF80_0000, 0xBF80_0000) _
        (constgen_vector-IsFresh fl (0, 0, 0) with_floats with_floats-IsFresh) in
    (
      with_vectors fl,
      new_fold_lem fl,
      (constgen_vector-Extends fl (0xBF80_0000, 0xBF80_0000, 0xBF80_0000) zeros).pool,
      λ t. IsFresh-IsInterned (with_vectors fl) t fresh,
    )
