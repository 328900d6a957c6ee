-- ===== src/Utf8/Tests.antt =====
-- Runs of the decoder.
use gmqcc.Prelude.{◌≡◌, refl, [], ◌∷◌, none, some, arith, length}
use gmqcc.Utf8.{utf8_from, utf8_to, utf8_continue}
use gmqcc.Utf8.Lengths.{utf8_to-utf8_from, utf8_to-three_bytes}

-- The euro sign, a lone continuation byte and an overlong encoding.
utf8_runs :
    (utf8_from 0x20AC ≡ 0xE2 ∷ 0x82 ∷ 0xAC ∷ [])
    × (utf8_to (0x82 ∷ []) 1 ≡ some (0, none))
    × (utf8_to (0xE0 ∷ 0x80 ∷ 0x80 ∷ []) 3 ≡ some (0, none))
unfolding utf8_from utf8_to utf8_continue
utf8_runs = (refl, refl, refl)

utf8_to-utf8_from_example :
    utf8_to (utf8_from 0xE9) (length (utf8_from 0xE9)) ≡ some (length (utf8_from 0xE9), some 0xE9)
utf8_to-utf8_from_example = utf8_to-utf8_from 0xE9 (omega arith) (omega arith)

utf8_to-three_bytes_example :
    (length (utf8_from 0x20AC) ≡ 3) × (utf8_to (utf8_from 0x20AC) 3 ≡ some (4, some 0x20AC))
utf8_to-three_bytes_example = utf8_to-three_bytes 0x20AC (omega arith) (omega arith)
