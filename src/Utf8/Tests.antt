-- ===== src/Utf8/Tests.antt =====
-- Runs of `decode_utf8`, and its theorem at a concrete code point.
use oronyx.Base.{◌≡◌, refl, arith, [], ◌∷◌, ◌++◌, length}
use oronyx.Utf8.{decode_utf8, decode_rest, replacement}
use oronyx.Utf8.Codec.{encode, decode_utf8-encode}

decode_utf8-encode_example :
    decode_utf8 (encode 0x20ac ++ (b'!' ∷ [])) ≡ (length (encode 0x20ac), 0x20ac)
decode_utf8-encode_example = decode_utf8-encode 0x20ac (b'!' ∷ []) (omega arith)

-- A missing continuation byte gives the replacement character.
decode_truncated : decode_utf8 (0xe2 ∷ 0x82 ∷ b'!' ∷ []) ≡ (1, replacement)
unfolding decode_utf8 decode_rest
decode_truncated = refl

-- An overlong encoding is accepted.
decode_overlong : decode_utf8 (0xc0 ∷ 0xaf ∷ []) ≡ (2, b'/')
unfolding decode_utf8 decode_rest
decode_overlong = refl
