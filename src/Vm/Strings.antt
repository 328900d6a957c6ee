-- ===== src/Vm/Strings.antt =====
-- Strings: `prog_getstring` and `prog_tempstring` of exec.cpp. A C string is the list of its bytes
-- before the 0 that ends it.
pub mod Temp
use gmqcc.Prelude.{
  ℕ, suc, ◌+◌, Bool, ◌||◌, List, [], ◌∷◌, ◌++◌, Option, none, some, leb, ◌==◌, if◌then◌else◌,
  length, replicate, drop,
}
use gmqcc.Vm.State.{Vm}
use gmqcc.Vm.Words.{is_negative, at_least, ◌>>=◌, write_block}

-- The bytes up to the first 0; without one the reader runs out of the vector.
unfoldable pub c_string : List ℕ → Option (List ℕ)
c_string [] = none
c_string (b ∷ bs) = if b == 0 then some [] else (c_string bs >>= λ rest. some (b ∷ rest))

-- "<<<invalid string>>>"
abbrev pub invalid_string : List ℕ
invalid_string =
    b'<' ∷ b'<' ∷ b'<' ∷ b'i' ∷ b'n' ∷ b'v' ∷ b'a' ∷ b'l' ∷ b'i' ∷ b'd' ∷ b' ' ∷ b's' ∷ b't' ∷ b'r'
    ∷ b'i' ∷ b'n' ∷ b'g' ∷ b'>' ∷ b'>' ∷ b'>' ∷ []

unfoldable pub get_string : ℕ → Vm → Option (List ℕ)
get_string str vm =
    if is_negative str || at_least str (length vm.strings)
    then some invalid_string
    else c_string (drop str vm.strings)

-- Where the string goes: at the end the area starts over.
unfoldable pub temp_position : ℕ → Vm → ℕ
temp_position len vm =
    if leb (length vm.strings) (vm.tempstring_at + len)
    then vm.tempstring_start
    else vm.tempstring_at

unfoldable pub tempstring : List ℕ → Vm → Option (ℕ × Vm)
tempstring str vm =
    let len = length str in
    let at = temp_position len vm in
    let bytes = str ++ 0 ∷ [] in
    if leb (length vm.strings) (at + len)
    then (do
      m ← write_block (vm.strings ++ replicate (len + 1) 0) at bytes
      some (at, record vm { strings = m }))
    else (do
      m ← write_block vm.strings at bytes
      some (at, record vm { strings = m; tempstring_at = vm.tempstring_at + (len + 1) }))
