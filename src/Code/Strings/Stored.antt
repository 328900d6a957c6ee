-- ===== src/Code/Strings/Stored.antt =====
-- The entering of a string in the table of strings, whose cache has places of its strings.
use mathlib.Core.Option.{some-injective}
use native.Mathlib.Nat.{mod-eq_of_lt}
use gmqcc.Prelude.{
  ℕ, zero, suc, ◌+◌, ◌<◌, ◌^◌, ◌%◌, ◌≡◌, refl, subst, Bool, true, false, List, [], ◌∷◌, ◌++◌, some,
  ◌⊎◌, inl, inr, arith, ◌==◌, length, set, get_elem?, get_elem?-set_self, get_elem?-set_ne,
  length-set, length-append, get_elem?-append_right, ℕ_discrete,
}
use gmqcc.Vm.Words.Blocks.{get_elem?-some}
use gmqcc.Vm.Strings.Temp.{Stands}
use gmqcc.Table.{Node, HashTable, set_in, htseth}
use gmqcc.Code.Strings.{Strings, enter_string}
use gmqcc.Code.Strings.Suffix.{AreCached, Found, set_in-AreCached}

-- Every byte of the old table is in the new one, at its place.
abbrev pub Extends : List ℕ → List ℕ → Type 0
Extends m m' = (i w : ℕ) → get_elem? m i ≡ some w → get_elem? m' i ≡ some w

pub Extends-append : (m more : List ℕ) → Extends m (m ++ more)
Extends-append [] more i w h = cc h
Extends-append (b ∷ m) more zero w h = h
Extends-append (b ∷ m) more (suc i) w h = Extends-append m more i w h

pub AreCached-Extends :
    (m m' : List ℕ) (ns : List Node) → Extends m m' → AreCached m ns → AreCached m' ns
AreCached-Extends m m' [] e h = tt
AreCached-Extends m m' (n ∷ ns) e h = (
  record { placed = h.0.placed; stands = λ k w f. e (n.value + k) w (h.0.stands k w f) },
  AreCached-Extends m m' ns e h.1,
)

-- As many bins as the hash of a string needs.
abbrev pub HasBins : Bool → HashTable → Type 0
HasBins true ht = length ht.table ≡ 256
HasBins false ht = (0 < ht.size) × (length ht.table ≡ ht.size)

-- Each bin of the cache has places of its strings, and so has the empty string if it was entered.
pub record IsTable (overlap : Bool) (code : Strings) : Type 0 where
  pub started : 0 < length code.chars
  pub bins : HasBins overlap code.string_cache
  pub cached :
      (i : ℕ) (ns : List Node)
      → get_elem? code.string_cache.table i ≡ some ns
      → AreCached code.chars ns
  pub empty : (code.string_cached_empty ≡ 0) ⊎ Stands code.chars code.string_cached_empty []

-- Bytes, none of which ends the string.
abbrev pub AreBytes : List ℕ → Type 0
AreBytes [] = Unit
AreBytes (b ∷ bs) = (b < 256) × AreBytes bs

some-lt : (m : List ℕ) (i w : ℕ) → get_elem? m i ≡ some w → i < length m
some-lt [] i w h = cc h
some-lt (b ∷ m) zero w h = omega arith
some-lt (b ∷ m) (suc i) w h = omega (arith, some-lt m i w h)

at_end : (key : List ℕ) → get_elem? (key ++ 0 ∷ []) (length key) ≡ some 0
at_end [] = refl
at_end (b ∷ key) = at_end key

Stands-lt : (m key : List ℕ) (i : ℕ) → Stands m i key → i + length key < length m
Stands-lt m key i s = some-lt m (i + length key) 0 (s (length key) 0 (at_end key))

pub Stands-here : (m key : List ℕ) → Stands (m ++ (key ++ 0 ∷ [])) (length m) key
Stands-here m key k w e = rw (get_elem?-append_right m (key ++ 0 ∷ []) k) e

-- `code'` is `code` with the string at `at`.
pub record IsEntered (overlap : Bool) (str : List ℕ) (code : Strings) (at : ℕ) (code' : Strings)
    : Type 0 where
  pub table : IsTable overlap code'
  pub stands : Stands code'.chars at str
  pub kept : Extends code.chars code'.chars

HasBins-set :
    (overlap : Bool) (ht : HashTable) (bin : ℕ) (ns : List Node)
    → HasBins overlap ht
    → HasBins overlap (record ht { table = set ht.table bin ns })
HasBins-set true ht bin ns h = rw (length-set ht.table bin ns) h
HasBins-set false ht bin ns h = (h.0, rw (length-set ht.table bin ns) h.1)

-- A bin of the cache after an insertion.
AreCached-set :
    (m : List ℕ) (bins : List (List Node)) (bin : ℕ) (new : List Node)
    → bin < length bins
    → AreCached m new
    → ((i : ℕ) (ns : List Node) → get_elem? bins i ≡ some ns → AreCached m ns)
    → (i : ℕ) (ns : List Node) → get_elem? (set bins bin new) i ≡ some ns
    → AreCached m ns
AreCached-set m bins bin new p c h i ns e = elim (ℕ_discrete bin i) [
  | yes same ↦
      subst (AreCached m)
        (some-injective new ns (rw (← same, get_elem?-set_self bins bin new p) at e)) c
  | no differ ↦ h i ns (rw (get_elem?-set_ne bins new differ) at e)
]

pub enter_string-IsEntered :
    (overlap : Bool) (str : List ℕ) (bin existing : ℕ) (code : Strings)
    → IsTable overlap code
    → bin < length code.string_cache.table
    → Found code.chars str existing
    → length code.chars + length str + 1 < 2 ^ 32
    → (at : ℕ) × (code' : Strings) × (enter_string str bin existing code ≡ some (at, code'))
      × IsEntered overlap str code at code'
unfolding enter_string htseth
enter_string-IsEntered overlap str bin existing code h b (inl none_yet) small =
    let more = str ++ 0 ∷ [] in
    let chars = code.chars ++ more in
    let at : length code.chars % 2 ^ 32 ≡ length code.chars = mod-eq_of_lt (omega (arith, small)) in
    let kept = Extends-append code.chars more in
    let nodes = get_elem?-some code.string_cache.table bin b in
    let s = Stands-here code.chars str in
    let new = set_in str (length code.chars) nodes.0 in
    let good =
      set_in-AreCached chars str (length code.chars) nodes.0
        (record { placed = h.started; stands = s })
        (AreCached-Extends code.chars chars nodes.0 kept (h.cached bin nodes.0 nodes.1)) in
    (
      length code.chars,
      record code {
        chars = chars;
        string_cache = record code.string_cache { table = set code.string_cache.table bin new };
      },
      rw (none_yet, nodes.1, at),
      record {
        table = record {
          started = rw (length-append code.chars more) (omega (arith, h.started));
          bins = HasBins-set overlap code.string_cache bin new h.bins;
          cached =
              AreCached-set chars code.string_cache.table bin new b good
                (λ i ns e. AreCached-Extends code.chars chars ns kept (h.cached i ns e));
          empty = empty_kept h.empty chars kept;
        };
        stands = s;
        kept = kept;
      },
    )
  where
    empty_kept :
        (code.string_cached_empty ≡ 0) ⊎ Stands code.chars code.string_cached_empty []
        → (m : List ℕ) → Extends code.chars m
        → (code.string_cached_empty ≡ 0) ⊎ Stands m code.string_cached_empty []
    empty_kept (inl e) m k = inl e
    empty_kept (inr e) m k = inr (λ i w f. k (code.string_cached_empty + i) w (e i w f))
enter_string-IsEntered overlap str bin existing code h b (inr (placed, s)) small =
    let end = Stands-lt code.chars str existing s in
    let at : existing % 2 ^ 32 ≡ existing = mod-eq_of_lt (omega (arith, end)) in
    let there : (existing == 0) ≡ false = ground arith in
    (existing, code, rw (there, at), record { table = h; stands = s; kept = λ i w e. e })
