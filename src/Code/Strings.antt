-- ===== src/Code/Strings.antt =====
-- The string table: `code_genstring` of code.cpp, with the fields of `code_t` that it uses. A string
-- is the list of its bytes before the 0 that ends it.
pub mod Suffix
pub mod Stored
pub mod Entered
use gmqcc.Prelude.{
  ℕ, zero, suc, ◌+◌, ◌%◌, ◌^◌, Bool, true, false, List, [], ◌∷◌, ◌++◌, Option, none, some, ◌==◌,
  if◌then◌else◌, length, replicate,
}
use gmqcc.Vm.Words.{◌>>=◌}
use gmqcc.Table.{HashTable, hthash, htseth, htgeth, str_htgeth, htnew}

pub record Strings : Type 0 where
  pub chars : List ℕ
  pub string_cache : HashTable
  pub string_cached_empty : ℕ

-- The constructor of `code_t`; `overlap` is OPTIM_OVERLAP_STRINGS.
unfoldable pub new_strings : Bool → Option Strings
new_strings overlap = do
  cache ← htnew (if overlap then 0x100 else 1024)
  some (record { chars = 0 ∷ []; string_cache = cache; string_cached_empty = 0 })

-- `str[strlen(str) - 1]` for the string that starts with `b`.
unfoldable pub last_byte : ℕ → List ℕ → ℕ
last_byte b [] = b
last_byte b (c ∷ cs) = last_byte c cs

-- The bin of a string that is not empty, and what the cache has there.
unfoldable pub bin_of : Bool → HashTable → ℕ → List ℕ → ℕ
unfolding last_byte
bin_of true ht b bs = last_byte b bs
bin_of false ht b bs = hthash ht (b ∷ bs)

unfoldable pub cached_in : Bool → HashTable → List ℕ → ℕ → Option ℕ
cached_in true ht str bin = str_htgeth ht str bin
cached_in false ht str bin = htgeth ht str bin

-- The end of `code_genstring`: `existing` is the position, as a pointer, that the cache has.
unfoldable pub enter_string : List ℕ → ℕ → ℕ → Strings → Option (ℕ × Strings)
enter_string str bin existing code =
    let at = length code.chars % 2 ^ 32 in
    if existing == 0
    then (do
      cache ← htseth code.string_cache str bin at
      some (at, record code { chars = code.chars ++ (str ++ 0 ∷ []); string_cache = cache }))
    else some (existing % 2 ^ 32, code)

unfoldable pub genstring : Bool → Option (List ℕ) → Strings → Option (ℕ × Strings)
unfolding bin_of cached_in enter_string
genstring overlap none code = some (0, code)
genstring overlap (some []) code =
    let at = length code.chars % 2 ^ 32 in
    if code.string_cached_empty == 0
    then some (at, record code { string_cached_empty = at; chars = code.chars ++ 0 ∷ [] })
    else some (code.string_cached_empty, code)
genstring overlap (some (b ∷ bs)) code = do
  let bin = bin_of overlap code.string_cache b bs
  existing ← cached_in overlap code.string_cache (b ∷ bs) bin
  enter_string (b ∷ bs) bin existing code
