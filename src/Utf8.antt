-- ===== src/Utf8.antt =====
-- utf8.cpp: a code point, as the 32 bits of an unsigned number, and the bytes of its encoding.
pub mod Lengths
mod Tests
use Prim.Native.Nat.{bit_and, bit_or}
use gmqcc.Prelude.{
  ℕ, zero, suc, ◌+◌, ◌-◌, ◌*◌, ◌/◌, ◌%◌, ◌^◌, Bool, true, false, ◌||◌, ◌&&◌, List, [], ◌∷◌, Option,
  none, some, ltb, leb, ◌==◌, if◌then◌else◌, get_elem?,
}
use gmqcc.Vm.Words.{◌>>=◌}

abbrev pub utf8_tab : List ℕ
utf8_tab =
    0xC0000002 ∷ 0xC0000003 ∷ 0xC0000004 ∷ 0xC0000005 ∷ 0xC0000006 ∷ 0xC0000007 ∷ 0xC0000008
    ∷ 0xC0000009 ∷ 0xC000000A ∷ 0xC000000B ∷ 0xC000000C ∷ 0xC000000D ∷ 0xC000000E ∷ 0xC000000F
    ∷ 0xC0000010 ∷ 0xC0000011 ∷ 0xC0000012 ∷ 0xC0000013 ∷ 0xC0000014 ∷ 0xC0000015 ∷ 0xC0000016
    ∷ 0xC0000017 ∷ 0xC0000018 ∷ 0xC0000019 ∷ 0xC000001A ∷ 0xC000001B ∷ 0xC000001C ∷ 0xC000001D
    ∷ 0xC000001E ∷ 0xC000001F ∷ 0xB3000000 ∷ 0xC3000001 ∷ 0xC3000002 ∷ 0xC3000003 ∷ 0xC3000004
    ∷ 0xC3000005 ∷ 0xC3000006 ∷ 0xC3000007 ∷ 0xC3000008 ∷ 0xC3000009 ∷ 0xC300000A ∷ 0xC300000B
    ∷ 0xC300000C ∷ 0xD300000D ∷ 0xC300000E ∷ 0xC300000F ∷ 0xBB0C0000 ∷ 0xC30C0001 ∷ 0xC30C0002
    ∷ 0xC30C0003 ∷ 0xD30C0004 ∷ []

-- `0x80 | (x & 0x3F)`
abbrev pub continuation : ℕ → ℕ
continuation x = bit_or 0x80 (bit_and x 0x3F)

-- `(unsigned)a - b` on 32 bits.
abbrev pub minus : ℕ → ℕ → ℕ
minus a b = (a + 2 ^ 32 - b) % 2 ^ 32

-- The bytes that are written, as many as `utf8_from` returns.
unfoldable pub utf8_from : ℕ → List ℕ
utf8_from ch =
    if ltb ch 0x80
    then ch ∷ []
    else if ltb ch 0x800
    then bit_or 0xC0 (ch / 2 ^ 6) ∷ continuation ch ∷ []
    else if ltb ch 0xD800 || ltb (minus ch 0xE000) 0x2000
    then bit_or 0xE0 (ch / 2 ^ 12) ∷ continuation (ch / 2 ^ 6) ∷ continuation ch ∷ []
    else if ltb (minus ch 0x10000) 0x100000
    then bit_or 0xF0 (ch / 2 ^ 18)
      ∷ continuation (ch / 2 ^ 12)
      ∷ continuation (ch / 2 ^ 6)
      ∷ continuation ch
      ∷ []
    else []

-- The bit `1U << 31`.
abbrev pub top_bit : ℕ → Bool
top_bit c = leb (2 ^ 31) c

-- `(int32_t)c >> 26` as the 32 bits of an `int`.
abbrev pub shift_26 : ℕ → ℕ
shift_26 c = if top_bit c then c / 2 ^ 26 + (2 ^ 32 - 2 ^ 6) else c / 2 ^ 26

-- The bound of the byte after the first: the bits of `~7` in the two tests.
abbrev pub out_of_bounds : ℕ → ℕ → Bool
out_of_bounds b c = leb 8 (bit_or (minus (b / 2 ^ 3) 0x10) ((b / 2 ^ 3 + shift_26 c) % 2 ^ 32))

-- `c << 6 | (b - 0x80)`
abbrev pub shift_in : ℕ → ℕ → ℕ
shift_in c b = bit_or (c * 2 ^ 6 % 2 ^ 32) (minus b 0x80)

-- What `utf8_to` returns, and the code point that it stores, if any.
abbrev pub Decoded : Type 0
Decoded = ℕ × Option ℕ

-- The part of `utf8_to` after the lookup: the loop, which runs for `j` = 2 only, and its end.
-- A read behind the bytes has no defined result.
unfoldable pub utf8_continue : ℕ → List ℕ → Option Decoded
utf8_continue c s = do
  b ← get_elem? s 1
  if out_of_bounds b c then some (0, none) else (do
    let c' = shift_in c b
    if top_bit c'
        then (do
          b' ← get_elem? s 2
          if leb 0x40 (minus b' 0x80) then some (0, none) else some (4, some (shift_in c' b')))
        else some (2, some c'))

-- `utf8_to` of bytes `s`, of which `n` may be read.
unfoldable pub utf8_to : List ℕ → ℕ → Option Decoded
unfolding utf8_continue
utf8_to s zero = some (0, none)
utf8_to s (suc k) = do
  b ← get_elem? s 0
  if ltb b 0x80
      then some ((if b == 0 then 0 else 1), some b)
      else if ltb 0x32 (minus b 0xC2)
      then some (0, none)
      else (do
        c ← get_elem? utf8_tab (minus b 0xC2)
        if ltb (suc k) 4 && top_bit (c * 2 ^ (6 * k) % 2 ^ 32)
            then some (0, none)
            else utf8_continue c s)
