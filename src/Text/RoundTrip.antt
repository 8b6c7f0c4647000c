-- ===== src/Text/RoundTrip.antt =====
-- `from_utf8` and `as_bytes`.
use mathlib.Core.Option
use clipy_si_core.Common.{ℕ, ◌≤◌, ◌<◌, ◌≡◌, refl, some, ◌⊎◌, [], ◌∷◌, ◌++◌, arith, All, OnSome}
use clipy_si_core.Text.{Bytes, Chars, IsScalar, encode_char, as_bytes, idle, utf8_loop, from_utf8}

-- One encoded scalar in front of any bytes.
loop-encode_char :
    (c : ℕ) (bs : Bytes)
    → IsScalar c
    → utf8_loop idle (encode_char c ++ bs) ≡ Option.map (λ s. c ∷ s) (utf8_loop idle bs)
unfolding utf8_loop encode_char
loop-encode_char c bs h = ground arith

loop-as_bytes : (s : Chars) → All IsScalar s → utf8_loop idle (as_bytes s) ≡ some s
unfolding as_bytes
loop-as_bytes [] h = unfold utf8_loop in refl
loop-as_bytes (c ∷ s) h = rw (loop-encode_char c (as_bytes s) h.0, loop-as_bytes s h.1) refl

-- `String::from_utf8` reads back the bytes of any string.
pub from_utf8-as_bytes : (s : Chars) → All IsScalar s → from_utf8 (as_bytes s) ≡ some s
unfolding from_utf8
from_utf8-as_bytes s h = loop-as_bytes s h

-- What the decoder accepts is the encoding of its result.
abbrev Encodes : Bytes → Chars → Type 0
Encodes bs s = All IsScalar s × (as_bytes s ≡ bs)

abbrev Sound : Bytes → Type 0
Sound bs = OnSome (Encodes bs) (utf8_loop idle bs)

-- One lemma for each length of an encoded scalar.
module _ (a b c d : ℕ) (bs : Bytes) (h : Sound bs) where
  Sound-one : a < 0x80 → Sound (a ∷ bs)
  unfolding utf8_loop as_bytes
  Sound-one r = ground arith

  Sound-two : 0xc2 ≤ a → a < 0xe0 → Sound (a ∷ b ∷ bs)
  unfolding utf8_loop as_bytes
  Sound-two r q = ground arith

  Sound-three : 0xe0 ≤ a → a < 0xf0 → Sound (a ∷ b ∷ c ∷ bs)
  unfolding utf8_loop as_bytes
  Sound-three r q = ground arith

  Sound-four : 0xf0 ≤ a → a < 0xf5 → Sound (a ∷ b ∷ c ∷ d ∷ bs)
  unfolding utf8_loop as_bytes
  Sound-four r q = ground arith

-- Bytes that begin no scalar, and encodings that are cut short.
Sound-cut : (a : ℕ) (bs : Bytes) → (0x80 ≤ a) × ((a < 0xc2) ⊎ (0xf5 ≤ a)) → Sound (a ∷ bs)
unfolding utf8_loop
Sound-cut a bs r = ground arith

cut_four : (a b c : ℕ) → 0xf0 ≤ a → Sound (a ∷ b ∷ c ∷ [])
unfolding utf8_loop
cut_four a b c r = ground arith

cut_three : (a b : ℕ) → 0xe0 ≤ a → Sound (a ∷ b ∷ [])
unfolding utf8_loop
cut_three a b r = ground arith

Sound-loop : (bs : Bytes) → Sound bs
Sound-loop [] = unfold utf8_loop as_bytes in ground arith
Sound-loop (a ∷ []) = unfold utf8_loop as_bytes in ground arith
Sound-loop (a ∷ b ∷ []) = ground (
  arith,
  Sound-one a 0 0 0 (b ∷ []) (Sound-loop (b ∷ [])),
  Sound-two a b 0 0 [] (Sound-loop []),
  Sound-cut a (b ∷ []),
  cut_three a b,
)
Sound-loop (a ∷ b ∷ c ∷ []) = ground (
  arith,
  Sound-one a 0 0 0 (b ∷ c ∷ []) (Sound-loop (b ∷ c ∷ [])),
  Sound-two a b 0 0 (c ∷ []) (Sound-loop (c ∷ [])),
  Sound-three a b c 0 [] (Sound-loop []),
  Sound-cut a (b ∷ c ∷ []),
  cut_four a b c,
)
Sound-loop (a ∷ b ∷ c ∷ d ∷ bs) = ground (
  arith,
  Sound-one a 0 0 0 (b ∷ c ∷ d ∷ bs) (Sound-loop (b ∷ c ∷ d ∷ bs)),
  Sound-two a b 0 0 (c ∷ d ∷ bs) (Sound-loop (c ∷ d ∷ bs)),
  Sound-three a b c 0 (d ∷ bs) (Sound-loop (d ∷ bs)),
  Sound-four a b c d bs (Sound-loop bs),
  Sound-cut a (b ∷ c ∷ d ∷ bs),
)

-- `String::from_utf8` accepts only the encoding of its result: no byte string has two readings and
-- no string two encodings.
pub as_bytes-from_utf8 :
    (bs : Bytes) (s : Chars) → from_utf8 bs ≡ some s → All IsScalar s × (as_bytes s ≡ bs)
unfolding from_utf8
as_bytes-from_utf8 bs s h = ground (arith, Sound-loop bs)
