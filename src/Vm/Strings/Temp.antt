-- ===== src/Vm/Strings/Temp.antt =====
-- Temporary strings, and the area of the strings in which they are.
use native.Mathlib.Nat.{add-zero}
use gmqcc.Prelude.{
  ℕ, zero, suc, ◌+◌, ◌≤◌, ◌<◌, ◌≡◌, ◌^◌, refl, false, ◌||◌, List, [], ◌∷◌, ◌++◌, some, arith, leb,
  ◌==◌, length, replicate, drop, get_elem?, ap, subst, ◌∙◌, inl, inr, length-append,
  length-replicate, get_elem?-append_left, Bool-cases,
}
use gmqcc.Vm.State.{Vm}
use gmqcc.Vm.Words.{is_negative, at_least}
use gmqcc.Vm.Words.Blocks.{write_block-IsWritten}
use gmqcc.Vm.Strings.{c_string, get_string, temp_position, tempstring}

-- The bytes of a C string.
abbrev pub NoZero : List ℕ → Type 0
NoZero [] = Unit
NoZero (b ∷ bs) = (0 < b) × NoZero bs

drop-get_elem? : (m : List ℕ) (i w : ℕ) → get_elem? m i ≡ some w → drop i m ≡ w ∷ drop (suc i) m
drop-get_elem? [] i w e = cc
drop-get_elem? (x ∷ m) zero w e = ground arith
drop-get_elem? (x ∷ m) (suc i) w e = drop-get_elem? m i w e

-- The bytes `str` and a 0 stand in `m` from `i` on.
abbrev pub Stands : List ℕ → ℕ → List ℕ → Type 0
Stands m i str = (k w : ℕ) → get_elem? (str ++ 0 ∷ []) k ≡ some w → get_elem? m (i + k) ≡ some w

pub c_string-Stands :
    (m : List ℕ) (i : ℕ) (str : List ℕ)
    → NoZero str
    → Stands m i str
    → c_string (drop i m) ≡ some str
unfolding c_string
c_string-Stands m i [] z h =
    let here : get_elem? m i ≡ some 0 = rw (← add-zero i) (h 0 0 refl) in
    rw (drop-get_elem? m i 0 here)
c_string-Stands m i (b ∷ str) z h =
    let here : get_elem? m i ≡ some b = rw (← add-zero i) (h 0 b refl) in
    let rest =
      c_string-Stands m (suc i) str z.1
        (λ k w e. let there : suc i + k ≡ i + suc k = omega arith in rw there (h (suc k) w e)) in
    let some_byte : (b == 0) ≡ false = ground arith in
    rw (drop-get_elem? m i b here, some_byte, rest)

-- The area of the temporary strings starts within the strings, and not behind its mark, the next place
-- `tempstring_at`. The mark itself may lie behind the strings.
pub record HasArea (vm : Vm) : Type 0 where
  pub inside : vm.tempstring_start ≤ length vm.strings
  pub behind : vm.tempstring_start ≤ vm.tempstring_at

-- `vm'` has the string `str` at `at`, and the strings of `vm` below the area.
pub record IsStored (vm : Vm) (str : List ℕ) (at : ℕ) (vm' : Vm) : Type 0 where
  pub area : HasArea vm'
  pub position : at ≡ temp_position (length str) vm
  pub moves :
      at + length str < length vm.strings
      → (vm'.tempstring_at ≡ vm.tempstring_at + (length str + 1))
        × (length vm'.strings ≡ length vm.strings)
  pub bounded : length vm'.strings ≤ length vm.strings + (length str + 1)
  pub start : vm'.tempstring_start ≡ vm.tempstring_start
  pub in_area : vm.tempstring_start ≤ at
  pub ends : at + length str < length vm'.strings
  pub grows : length vm.strings ≤ length vm'.strings
  pub reads : c_string (drop at vm'.strings) ≡ some str
  pub kept : (i : ℕ) → i < vm.tempstring_start → get_elem? vm'.strings i ≡ get_elem? vm.strings i

temp_position_bounds :
    (len : ℕ) (vm : Vm)
    → HasArea vm
    → (vm.tempstring_start ≤ temp_position len vm) × (temp_position len vm ≤ length vm.strings)
unfolding temp_position
temp_position_bounds len vm h = ground arith

temp_position_full :
    (len : ℕ) (vm : Vm)
    → length vm.strings ≤ vm.tempstring_at + len
    → temp_position len vm ≡ vm.tempstring_start
unfolding temp_position
temp_position_full len vm h = ground arith

tempstring-IsStored :
    (str : List ℕ) (vm : Vm)
    → HasArea vm
    → NoZero str
    → (at : ℕ) × (vm' : Vm) × (tempstring str vm ≡ some (at, vm')) × IsStored vm str at vm'
unfolding tempstring
tempstring-IsStored str vm h z =
    elim (Bool-cases (leb (length vm.strings) (temp_position (length str) vm + length str))) [
      | inl full ↦
          let longer = vm.strings ++ replicate (length str + 1) 0 in
          let size : length longer ≡ length vm.strings + (length str + 1) =
            length-append vm.strings (replicate (length str + 1) 0)
            ∙ ap (λ (t : ℕ). length vm.strings + t) (length-replicate (length str + 1) 0) in
          let r = write_block-IsWritten longer at bytes (omega (arith, size, count, bounds)) in
          (
            at,
            record vm { strings = r.0 },
            rw (full, r.1),
            record {
              area = record {
                inside = omega (arith, size, r.2.same_length, h.inside);
                behind = h.behind;
              };
              position = refl;
              moves = λ p. absurd (ground arith);
              bounded = omega (arith, size, r.2.same_length);
              start = refl;
              in_area = bounds.0;
              ends = omega (arith, size, r.2.same_length, bounds);
              grows = omega (arith, size, r.2.same_length);
              reads = c_string-Stands r.0 at str z r.2.inside;
              kept = λ i p.
                  r.2.outside i (inl (omega (arith, bounds)))
                  ∙ get_elem?-append_left vm.strings (replicate (length str + 1) 0) i
                      (omega (arith, h.inside));
            },
          )
      | inr fits ↦
          let room : at + length str < length vm.strings = ground arith in
          let r = write_block-IsWritten vm.strings at bytes (omega (arith, room, count)) in
          (
            at,
            record vm { strings = r.0; tempstring_at = vm.tempstring_at + (length str + 1) },
            rw (fits, r.1),
            record {
              area = record {
                inside = omega (arith, r.2.same_length, h.inside);
                behind = omega (arith, h.behind);
              };
              position = refl;
              moves = λ p. (refl, r.2.same_length);
              bounded = omega (arith, r.2.same_length);
              start = refl;
              in_area = bounds.0;
              ends = omega (arith, r.2.same_length, room);
              grows = omega (arith, r.2.same_length);
              reads = c_string-Stands r.0 at str z r.2.inside;
              kept = λ i p. r.2.outside i (inl (omega (arith, bounds)));
            },
          )
    ]
  where
    at : ℕ
    at = temp_position (length str) vm

    bytes : List ℕ
    bytes = str ++ 0 ∷ []

    count : length bytes ≡ length str + 1
    count = length-append str (0 ∷ [])

    bounds : (vm.tempstring_start ≤ at) × (at ≤ length vm.strings)
    bounds = temp_position_bounds (length str) vm h

-- For a string without the byte 0, an area that starts within the strings and not behind its mark, and
-- strings that stay within 2 ^ 31 bytes with one more string: `prog_tempstring` returns a place where
-- `prog_getstring` reads the string, the area still starts so, and the bytes below it are kept.
pub get_string-tempstring :
    (str : List ℕ) (vm : Vm)
    → HasArea vm
    → NoZero str
    → length vm.strings + (length str + 1) ≤ 2 ^ 31
    → (at : ℕ) × (vm' : Vm) × (tempstring str vm ≡ some (at, vm'))
      × (get_string at vm' ≡ some str)
      × HasArea vm'
      × ((i : ℕ) → i < vm.tempstring_start → get_elem? vm'.strings i ≡ get_elem? vm.strings i)
unfolding get_string
get_string-tempstring str vm h z p =
    let r = tempstring-IsStored str vm h z in
    let valid : (is_negative r.0 || at_least r.0 (length r.1.strings)) ≡ false =
      ground (arith, r.3.ends, r.3.bounded) in
    (r.0, r.1, r.2, rw valid r.3.reads, r.3.area, r.3.kept)

-- For an area that starts within the strings and not behind its mark, and strings without the byte 0:
-- once the area is used up, a string that fits at its start is put there, but the mark of the next
-- free place moves on from the old one. So the next string that fits is put at the start as well,
-- over the first one.
pub tempstring_overwrites :
    (a b : List ℕ) (vm : Vm)
    → HasArea vm
    → NoZero a
    → NoZero b
    → length vm.strings ≤ vm.tempstring_at + length a
    → vm.tempstring_start + length a < length vm.strings
    → vm.tempstring_start + length b < length vm.strings
    → (vm' vm'' : Vm) × (tempstring a vm ≡ some (vm.tempstring_start, vm'))
      × (tempstring b vm' ≡ some (vm.tempstring_start, vm''))
      × (c_string (drop vm.tempstring_start vm'.strings) ≡ some a)
      × (c_string (drop vm.tempstring_start vm''.strings) ≡ some b)
tempstring_overwrites a b vm h za zb full fits_a fits_b =
    let r = tempstring-IsStored a vm h za in
    let first : r.0 ≡ vm.tempstring_start = r.3.position ∙ temp_position_full (length a) vm full in
    let next = r.3.moves (omega (arith, first)) in
    let s = tempstring-IsStored b r.1 r.3.area zb in
    let second : s.0 ≡ vm.tempstring_start =
      s.3.position ∙ temp_position_full (length b) r.1 (omega (arith, next)) ∙ r.3.start in
    (
      r.1,
      s.1,
      subst (λ (i : ℕ). tempstring a vm ≡ some (i, r.1)) first r.2,
      subst (λ (i : ℕ). tempstring b r.1 ≡ some (i, s.1)) second s.2,
      subst (λ (i : ℕ). c_string (drop i r.1.strings) ≡ some a) first r.3.reads,
      subst (λ (i : ℕ). c_string (drop i s.1.strings) ≡ some b) second s.3.reads,
    )
