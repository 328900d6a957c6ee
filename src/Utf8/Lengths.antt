-- ===== src/Utf8/Lengths.antt =====
-- `utf8_to` on the bytes that `utf8_from` writes, length by length: a test of all code points of a
-- length, and what it says of each.
use gmqcc.Prelude.{
  ℕ, ◌<◌, ◌≡◌, refl, Bool, true, false, ◌&&◌, Option, none, some, arith, ◌==◌, length, ◌+◌, ◌-◌,
  ◌≤◌, dec_lt, inl, inr, all_below, all_below-lt, Bool-cases, ==_iff,
}
use gmqcc.Utf8.{Decoded, utf8_from, utf8_to, utf8_continue}

-- The result `r` is the code point `ch`, read from `n` bytes.
abbrev is_decoded : ℕ → Option Decoded → ℕ → Bool
is_decoded n none ch = false
is_decoded n (some (k, none)) ch = false
is_decoded n (some (k, some c)) ch = k == n && c == ch

is_decoded-eq :
    (n : ℕ) (r : Option Decoded) (ch : ℕ) → is_decoded n r ch ≡ true → r ≡ some (n, some ch)
is_decoded-eq n none ch h = cc h
is_decoded-eq n (some (k, none)) ch h = cc h
is_decoded-eq n (some (k, some c)) ch h = elim (Bool-cases (k == n)) [
  | inl e ↦
      let same : c ≡ ch = (==_iff c ch).0 (rw e at h) in
      let counted : k ≡ n = (==_iff k n).0 e in rw (same, counted)
  | inr e ↦ cc (rw e at h)
]

-- The encoding of the code point, of `n` bytes, read back from those bytes, counts `k` of them.
round_trip : ℕ → ℕ → ℕ → Bool
round_trip n k ch = let s = utf8_from ch in length s == n && is_decoded k (utf8_to s (length s)) ch

one_byte : all_below 0x7F (λ i. round_trip 1 1 (1 + i)) ≡ true
unfolding all_below round_trip utf8_from utf8_to utf8_continue
one_byte = refl

two_bytes : all_below 0x780 (λ i. round_trip 2 2 (0x80 + i)) ≡ true
unfolding all_below round_trip utf8_from utf8_to utf8_continue
two_bytes = refl

three_bytes : all_below 0xD000 (λ i. round_trip 3 4 (0x800 + i)) ≡ true
unfolding all_below round_trip utf8_from utf8_to utf8_continue
three_bytes = refl

round_trip-eq :
    (n k ch : ℕ)
    → round_trip n k ch ≡ true
    → (length (utf8_from ch) ≡ n)
      × (utf8_to (utf8_from ch) (length (utf8_from ch)) ≡ some (k, some ch))
unfolding round_trip
round_trip-eq n k ch h = elim (Bool-cases (length (utf8_from ch) == n)) [
  | inl e ↦ (
    (==_iff _ n).0 e,
    is_decoded-eq k (utf8_to (utf8_from ch) (length (utf8_from ch))) ch (rw e at h),
  )
  | inr e ↦ cc (rw e at h)
]

-- The code points from `first` on that pass a test of all of them.
round_trip-from :
    (first count n k ch : ℕ)
    → all_below count (λ i. round_trip n k (first + i)) ≡ true
    → first ≤ ch
    → ch < first + count
    → (length (utf8_from ch) ≡ n)
      × (utf8_to (utf8_from ch) (length (utf8_from ch)) ≡ some (k, some ch))
round_trip-from first count n k ch h p q =
    let at : first + (ch - first) ≡ ch = omega arith in
    let passed =
      all_below-lt count (λ i. round_trip n k (first + i)) (ch - first) h (omega arith) in
    round_trip-eq n k ch (rw at at passed)

-- `utf8_to` reads back each code point from 1 to 0x7FF from the bytes that `utf8_from` writes, and
-- returns how many they are.
pub utf8_to-utf8_from :
    (ch : ℕ)
    → 0 < ch
    → ch < 0x800
    → let s = utf8_from ch in utf8_to s (length s) ≡ some (length s, some ch)
utf8_to-utf8_from ch p q = elim (dec_lt ch 0x80) [
  | yes low ↦
      let r = round_trip-from 1 0x7F 1 1 ch one_byte (omega arith) (omega arith) in
      rw r.0 (rw r.0 at r.1)
  | no high ↦
      let r = round_trip-from 0x80 0x780 2 2 ch two_bytes (omega arith) (omega arith) in
      rw r.0 (rw r.0 at r.1)
]

-- For each code point from 0x800 to 0xD7FF, of which `utf8_from` writes three bytes, `utf8_to` reads
-- the code point back from them, but returns 4.
pub utf8_to-three_bytes :
    (ch : ℕ)
    → 0x800 ≤ ch
    → ch < 0xD800
    → (length (utf8_from ch) ≡ 3) × (utf8_to (utf8_from ch) 3 ≡ some (4, some ch))
utf8_to-three_bytes ch p q =
    let r = round_trip-from 0x800 0xD000 3 4 ch three_bytes p (omega arith) in (r.0, rw r.0 at r.1)
