-- ===== src/Utf8/Codec.antt =====
-- `decode_utf8` reads what a reference encoder writes.
use oronyx.Base.{ℕ, suc, ◌+◌, ◌*◌, ◌/◌, ◌%◌, ◌^◌, ◌<◌, ◌≡◌, refl, arith, bit_and, bit_or}
use oronyx.Base.{List, [], ◌∷◌, ◌++◌, length, ltb, ◌==◌, if◌then◌else◌, every, every_sound}
use oronyx.Base.{Bool, true, ◌&&◌}
use oronyx.Base.Bits.{bit_and-low, bit_or-parts, bit_or-zero, bit_or-zero_left}
use oronyx.Utf8.{decode_utf8, decode_rest, byte_at}

-- The bytes of a code point below 2 ^ 21, as RFC 3629 gives them.
abbrev pub encode : ℕ → List ℕ
encode c =
    if ltb c 0x80
    then c ∷ []
    else if ltb c 0x800
    then (0xc0 + c / 2 ^ 6) ∷ (0x80 + c % 64) ∷ []
    else if ltb c 0x10000
    then (0xe0 + c / 2 ^ 12) ∷ (0x80 + c / 2 ^ 6 % 64) ∷ (0x80 + c % 64) ∷ []
    else (0xf0 + c / 2 ^ 18)
      ∷ (0x80 + c / 2 ^ 12 % 64)
      ∷ (0x80 + c / 2 ^ 6 % 64)
      ∷ (0x80 + c % 64)
      ∷ []

-- The masks that `decode_utf8` tests, on a byte.
abbrev are_masks : ℕ → Bool
are_masks b =
    bit_and b 0x80 == b / 128 * 128
    && (bit_and b 0xc0 == b / 64 * 64)
    && (bit_and b 0xe0 == b / 32 * 32)
    && (bit_and b 0xf0 == b / 16 * 16)
    && (bit_and b 0xf8 == b / 8 * 8)

table : every are_masks 256 ≡ true
unfolding every
table = refl

masks :
    (b : ℕ)
    → b < 256
    → (bit_and b 0x80 ≡ b / 128 * 128)
      × (bit_and b 0xc0 ≡ b / 64 * 64)
      × (bit_and b 0xe0 ≡ b / 32 * 32)
      × (bit_and b 0xf0 ≡ b / 16 * 16)
      × (bit_and b 0xf8 ≡ b / 8 * 8)
masks b h =
    let e = every_sound are_masks 256 b h table in
    (ground arith, ground arith, ground arith, ground arith, ground arith)

append_bits : (cp d : ℕ) → d < 64 → bit_or (cp * 64) d ≡ cp * 64 + d
append_bits cp d h =
    let high : cp * 2 ^ 6 + 0 ≡ cp * 64 = omega arith in
    let low : 0 * 2 ^ 6 + d ≡ d = omega arith in
    let parts = bit_or-parts 6 cp 0 0 d (omega arith) (omega arith) in
    omega (arith, rw (high, low) at parts, bit_or-zero cp, bit_or-zero_left d)

-- One round of the loop on a continuation byte.
continuation :
    (n i len : ℕ) (str : List ℕ) (cp d : ℕ)
    → d < 64
    → cp < 2 ^ 26
    → byte_at str i ≡ 0x80 + d
    → decode_rest (suc n) i len str cp ≡ decode_rest n (i + 1) len str (cp * 64 + d)
unfolding decode_rest
continuation n i len str cp d hd hcp e =
    let (_, m, _, _, _) = masks (0x80 + d) (omega arith) in
    let low : bit_and (0x80 + d) 0x3f ≡ d = omega (arith, bit_and-low 6 (0x80 + d)) in
    let fits : cp * 2 ^ 6 % 2 ^ 32 ≡ cp * 64 = omega arith in
    let fits_next : (cp * 64 + d) % 2 ^ 32 ≡ cp * 64 + d = omega arith in
    rw (e, low, fits, append_bits cp d hd, fits_next) (ground arith)

-- A code point below 0x80 is read from its one byte.
pub one_byte : (c : ℕ) (rest : List ℕ) → c < 0x80 → decode_utf8 (c ∷ rest) ≡ (1, c)
unfolding decode_utf8
one_byte c rest h = let (m, _, _, _, _) = masks c (omega arith) in ground arith

two_bytes :
    (a d : ℕ) (rest : List ℕ)
    → a < 32
    → d < 64
    → decode_utf8 ((0xc0 + a) ∷ (0x80 + d) ∷ rest) ≡ (2, a * 64 + d)
unfolding decode_utf8
two_bytes a d rest ha hd =
    let b = 0xc0 + a in
    let str = b ∷ (0x80 + d) ∷ rest in
    let (m, _, n, _, _) = masks b (omega arith) in
    let low : bit_and b 0x1f ≡ a = omega (arith, bit_and-low 5 b) in
    rw low (ground (arith, continuation 0 1 2 str a d hd (omega arith) refl))

three_bytes :
    (a d e : ℕ) (rest : List ℕ)
    → a < 16
    → d < 64
    → e < 64
    → decode_utf8 ((0xe0 + a) ∷ (0x80 + d) ∷ (0x80 + e) ∷ rest) ≡ (3, (a * 64 + d) * 64 + e)
unfolding decode_utf8
three_bytes a d e rest ha hd he =
    let b = 0xe0 + a in
    let str = b ∷ (0x80 + d) ∷ (0x80 + e) ∷ rest in
    let (m, _, n, k, _) = masks b (omega arith) in
    let low : bit_and b 0x0f ≡ a = omega (arith, bit_and-low 4 b) in
    let first = continuation 1 1 3 str a d hd (omega arith) refl in
    let second = continuation 0 2 3 str (a * 64 + d) e he (omega arith) refl in
    rw low (ground (arith, first, second))

four_bytes :
    (a d e f : ℕ) (rest : List ℕ)
    → a < 8
    → d < 64
    → e < 64
    → f < 64
    → decode_utf8 ((0xf0 + a) ∷ (0x80 + d) ∷ (0x80 + e) ∷ (0x80 + f) ∷ rest)
      ≡ (4, ((a * 64 + d) * 64 + e) * 64 + f)
unfolding decode_utf8
four_bytes a d e f rest ha hd he hf =
    let b = 0xf0 + a in
    let str = b ∷ (0x80 + d) ∷ (0x80 + e) ∷ (0x80 + f) ∷ rest in
    let (m, _, n, k, l) = masks b (omega arith) in
    let low : bit_and b 0x07 ≡ a = omega (arith, bit_and-low 3 b) in
    let first = continuation 2 1 4 str a d hd (omega arith) refl in
    let second = continuation 1 2 4 str (a * 64 + d) e he (omega arith) refl in
    let third = continuation 0 3 4 str ((a * 64 + d) * 64 + e) f hf (omega arith) refl in
    rw low (ground (arith, first, second, third))

-- On the encoding of a code point below 2 ^ 21 with any bytes behind it `decode_utf8` returns the
-- code point and the length of its encoding.
pub decode_utf8-encode :
    (c : ℕ) (rest : List ℕ) → c < 2 ^ 21 → decode_utf8 (encode c ++ rest) ≡ (length (encode c), c)
decode_utf8-encode c rest h = ground (
  arith,
  one_byte c rest,
  two_bytes (c / 2 ^ 6) (c % 64) rest,
  three_bytes (c / 2 ^ 12) (c / 2 ^ 6 % 64) (c % 64) rest,
  four_bytes (c / 2 ^ 18) (c / 2 ^ 12 % 64) (c / 2 ^ 6 % 64) (c % 64) rest,
)
