-- ===== src/Text/Examples.antt =====
-- Runs of the UTF-8 decoder.
use clipy_si_core.Common.{◌≡◌, refl, none, some, [], ◌∷◌}
use clipy_si_core.Text.{as_bytes, from_utf8}

decode_euro : from_utf8 (0x41 ∷ 0xe2 ∷ 0x82 ∷ 0xac ∷ []) ≡ some (0x41 ∷ 0x20ac ∷ [])
unfolding from_utf8
decode_euro = refl

decode_overlong : from_utf8 (0xc1 ∷ 0x81 ∷ []) ≡ none
unfolding from_utf8
decode_overlong = refl

decode_surrogate : from_utf8 (0xed ∷ 0xa0 ∷ 0x80 ∷ []) ≡ none
unfolding from_utf8
decode_surrogate = refl

encode_emoji : as_bytes (0x1f600 ∷ []) ≡ 0xf0 ∷ 0x9f ∷ 0x98 ∷ 0x80 ∷ []
unfolding as_bytes
encode_emoji = refl
