-- ===== src/Utf8.antt =====
-- drivers/graphics.cpp, `decode_utf8`: the first code point of a string and its number of bytes.
pub mod Codec
mod Tests
use oronyx.Base.{ℕ, zero, suc, ◌+◌, ◌-◌, ◌*◌, bit_and, bit_or, u32, List, [], ◌∷◌}
use oronyx.Base.{◌==◌, if◌then◌else◌, ◌<<<◌}

-- `str[i]`: the list holds the bytes in front of the terminator, which reads as 0. A byte behind
-- the terminator is never asked for, since the loop stops at a 0.
abbrev pub byte_at : List ℕ → ℕ → ℕ
byte_at [] i = 0
byte_at (c ∷ cs) zero = c
byte_at (c ∷ cs) (suc i) = byte_at cs i

-- `str += n`.
abbrev pub advance : ℕ → List ℕ → List ℕ
advance zero cs = cs
advance (suc n) [] = []
advance (suc n) (c ∷ cs) = advance n cs

abbrev pub replacement : ℕ
replacement = 0xfffd

-- The loop over the continuation bytes: `n` rounds are left.
unfoldable pub decode_rest : ℕ → ℕ → ℕ → List ℕ → ℕ → ℕ × ℕ
decode_rest zero i len str cp = (len, cp)
decode_rest (suc n) i len str cp =
    let byte = byte_at str i in
    let rest = decode_rest n (i + 1) len str (u32 (bit_or (u32 (cp <<< 6)) (bit_and byte 0x3f))) in
    if bit_and byte 0xc0 == 0x80 then rest else (1, replacement)

-- The number of bytes and the code point.
unfoldable pub decode_utf8 : List ℕ → ℕ × ℕ
unfolding decode_rest
decode_utf8 str =
    let first = byte_at str 0 in
    if bit_and first 0x80 == 0
    then (1, first)
    else if bit_and first 0xe0 == 0xc0
    then decode_rest 1 1 2 str (bit_and first 0x1f)
    else if bit_and first 0xf0 == 0xe0
    then decode_rest 2 1 3 str (bit_and first 0x0f)
    else if bit_and first 0xf8 == 0xf0
    then decode_rest 3 1 4 str (bit_and first 0x07)
    else (1, replacement)
