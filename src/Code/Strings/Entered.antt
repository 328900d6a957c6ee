-- ===== src/Code/Strings/Entered.antt =====
-- `code_genstring` as a whole.
use mathlib.Core.Option.{some-injective}
use native.Mathlib.Nat.{mod-eq_of_lt}
use gmqcc.Prelude.{
  ℕ, zero, suc, ◌+◌, ◌<◌, ◌^◌, ◌%◌, ◌≡◌, refl, Bool, true, false, List, [], ◌∷◌, ◌++◌, some, ◌⊎◌,
  inl, inr, arith, ◌==◌, length, drop, get_elem?, length-append, length-replicate, replicate, subst,
  Bool-cases,
}
use gmqcc.Vm.Words.Blocks.{get_elem?-some}
use gmqcc.Vm.Strings.{c_string}
use gmqcc.Vm.Strings.Temp.{NoZero, Stands, c_string-Stands}
use gmqcc.Table.{HashTable, Node, htnew, htgeth, str_htgeth}
use gmqcc.Table.Lookup.{hthash-lt}
use gmqcc.Code.Strings.{Strings, new_strings, last_byte, bin_of, cached_in, genstring}
use gmqcc.Code.Strings.Suffix.{AreCached, Found, get_in-Found, get_suffix_in-Found}
use gmqcc.Code.Strings.Stored.{
  Extends, Extends-append, AreCached-Extends, HasBins, IsTable, AreBytes, Stands-here, IsEntered,
  enter_string-IsEntered,
}

last_byte-lt : (b : ℕ) (bs : List ℕ) → AreBytes (b ∷ bs) → last_byte b bs < 256
unfolding last_byte
last_byte-lt b [] h = h.0
last_byte-lt b (c ∷ cs) h = last_byte-lt c cs h.1

bin_of-lt :
    (overlap : Bool) (ht : HashTable) (b : ℕ) (bs : List ℕ)
    → HasBins overlap ht
    → AreBytes (b ∷ bs)
    → bin_of overlap ht b bs < length ht.table
unfolding bin_of
bin_of-lt true ht b bs h k = rw h (last_byte-lt b bs k)
bin_of-lt false ht b bs h k = rw h.1 (hthash-lt ht (b ∷ bs) h.0)

-- What the cache has for a string is a place of it.
cached_in-Found :
    (overlap : Bool) (code : Strings) (str : List ℕ) (bin : ℕ)
    → IsTable overlap code
    → bin < length code.string_cache.table
    → (at : ℕ) × (cached_in overlap code.string_cache str bin ≡ some at) × Found code.chars str at
unfolding cached_in htgeth str_htgeth
cached_in-Found true code str bin h b =
    let nodes = get_elem?-some code.string_cache.table bin b in
    let found = get_suffix_in-Found code.chars str nodes.0 (h.cached bin nodes.0 nodes.1) in
    (_, rw nodes.1, found)
cached_in-Found false code str bin h b =
    let nodes = get_elem?-some code.string_cache.table bin b in
    let found = get_in-Found code.chars str nodes.0 (h.cached bin nodes.0 nodes.1) in
    (_, rw nodes.1, found)

genstring-IsEntered :
    (overlap : Bool) (str : List ℕ) (code : Strings)
    → IsTable overlap code
    → AreBytes str
    → length code.chars + length str + 1 < 2 ^ 32
    → (at : ℕ) × (code' : Strings) × (genstring overlap (some str) code ≡ some (at, code'))
      × IsEntered overlap str code at code'
unfolding genstring
genstring-IsEntered overlap [] code h k small = elim (Bool-cases (code.string_cached_empty == 0)) [
  | inl none_yet ↦
      let at : length code.chars % 2 ^ 32 ≡ length code.chars =
        mod-eq_of_lt (omega (arith, small)) in
      let chars = code.chars ++ 0 ∷ [] in
      let kept = Extends-append code.chars (0 ∷ []) in
      let s = Stands-here code.chars [] in
      (
        length code.chars,
        record code { chars = chars; string_cached_empty = length code.chars },
        rw (none_yet, at),
        record {
          table = record {
            started = rw (length-append code.chars (0 ∷ [])) (omega (arith, h.started));
            bins = h.bins;
            cached = λ i ns e. AreCached-Extends code.chars chars ns kept (h.cached i ns e);
            empty = inr s;
          };
          stands = s;
          kept = kept;
        },
      )
  | inr there ↦ (
    code.string_cached_empty,
    code,
    rw there,
    record { table = h; stands = entered_before h.empty there; kept = λ i w e. e },
  )
]
  where
    entered_before :
        (code.string_cached_empty ≡ 0) ⊎ Stands code.chars code.string_cached_empty []
        → (code.string_cached_empty == 0) ≡ false
        → Stands code.chars code.string_cached_empty []
    entered_before (inl e) f = absurd (ground arith)
    entered_before (inr s) f = s
genstring-IsEntered overlap (b ∷ bs) code h k small =
    let bin = bin_of-lt overlap code.string_cache b bs h.bins k in
    let found = cached_in-Found overlap code (b ∷ bs) _ h bin in
    let r = enter_string-IsEntered overlap (b ∷ bs) _ found.0 code h bin found.2 small in
    (r.0, r.1, rw found.1 r.2, r.3)

-- `code_genstring` of a string of bytes without the byte 0, on a table whose cache has places of its
-- strings, returns a place where the string can be read, by itself or as the end of another string.
-- The cache of the new table has places of its strings, and all bytes of the old table stay where
-- they are. The table has room: it stays below 2 ^ 32 bytes.
pub genstring-IsStored :
    (overlap : Bool) (str : List ℕ) (code : Strings)
    → IsTable overlap code
    → AreBytes str
    → NoZero str
    → length code.chars + length str + 1 < 2 ^ 32
    → (at : ℕ) × (code' : Strings) × (genstring overlap (some str) code ≡ some (at, code'))
      × (c_string (drop at code'.chars) ≡ some str)
      × IsTable overlap code'
      × Extends code.chars code'.chars
genstring-IsStored overlap str code h k z small =
    let r = genstring-IsEntered overlap str code h k small in
    (r.0, r.1, r.2, c_string-Stands r.1.chars r.0 str z r.3.stands, r.3.table, r.3.kept)

AreCached-replicate :
    (m : List ℕ) (n i : ℕ) (ns : List Node)
    → get_elem? (replicate n []) i ≡ some ns
    → AreCached m ns
AreCached-replicate m zero i ns e = cc e
AreCached-replicate m (suc n) zero ns e = subst (AreCached m) (some-injective [] ns e) tt
AreCached-replicate m (suc n) (suc i) ns e = AreCached-replicate m n i ns e

abbrev pub fresh_strings : ℕ → Strings
fresh_strings n = record {
  chars = 0 ∷ [];
  string_cache = record { size = n; table = replicate n [] };
  string_cached_empty = 0;
}

pub fresh_strings-IsTable :
    (overlap : Bool) (n : ℕ)
    → HasBins overlap (record { size = n; table = replicate n [] })
    → IsTable overlap (fresh_strings n)
fresh_strings-IsTable overlap n b = record {
  started = omega arith;
  bins = b;
  cached = AreCached-replicate (0 ∷ []) n;
  empty = inl refl;
}

-- The constructor of `code_t` makes a table whose cache has places of its strings, whether the
-- optimisation of overlapping strings is on or off.
pub new_strings-IsTable :
    (overlap : Bool) → (code : Strings) × (new_strings overlap ≡ some code) × IsTable overlap code
unfolding new_strings htnew
new_strings-IsTable true = (
  fresh_strings 256,
  refl,
  fresh_strings-IsTable true 256 (length-replicate {A = List Node} 256 []),
)
new_strings-IsTable false = (
  fresh_strings 1024,
  refl,
  fresh_strings-IsTable false 1024 (omega arith, length-replicate {A = List Node} 1024 []),
)
