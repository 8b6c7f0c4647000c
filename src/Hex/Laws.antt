-- ===== src/Hex/Laws.antt =====
-- `deserialize` on the text that `serialize` wrote, and on other text.
use clipy_si_core.Common.{
  ℕ, true, false, ==_iff, ◌*◌, ◌/◌, ◌%◌, ◌≤◌, ◌<◌, ◌≡◌, refl, [], ◌∷◌, ◌++◌, arith, length, All,
  ◌⊎◌, ◌==◌,
}
use clipy_si_core.Common.Result.{ok, err}
use clipy_si_core.Text.{Bytes, Chars, IsByte, IsScalar, encode_char, as_bytes}
use clipy_si_core.Hex.{
  hex_lower, panics, decode_pair, hex_pairs, deserialize, hex_digit, starts_inside,
}

-- Hex text is ASCII, so its bytes are its characters.
as_bytes-hex_lower : (bs : Bytes) → All IsByte bs → as_bytes (hex_lower bs) ≡ hex_lower bs
unfolding as_bytes hex_lower
as_bytes-hex_lower [] h = refl
as_bytes-hex_lower (b ∷ bs) h = ground (arith, as_bytes-hex_lower bs h.1)

pub length-hex_lower : (bs : Bytes) → length (hex_lower bs) ≡ 2 * length bs
unfolding hex_lower
length-hex_lower [] = refl
length-hex_lower (b ∷ bs) = omega (arith, length-hex_lower bs)

-- A digit as `serialize` writes it.
abbrev pub IsHexDigit : ℕ → Type 0
IsHexDigit c = ((48 ≤ c) × (c < 58)) ⊎ ((97 ≤ c) × (c < 103))

digit : (n : ℕ) → n < 16 → IsHexDigit (hex_digit n)
digit n h = ground arith

pub hex_lower-IsHexDigit : (bs : Bytes) → All IsByte bs → All IsHexDigit (hex_lower bs)
unfolding hex_lower
hex_lower-IsHexDigit [] h = h
hex_lower-IsHexDigit (b ∷ bs) h = (
  digit (b / 16) (omega (arith, h.0)),
  (digit (b % 16) (omega arith), hex_lower-IsHexDigit bs h.1),
)

no_continuation : (bs : Bytes) → All IsByte bs → starts_inside (hex_lower bs) ≡ false
unfolding hex_lower
no_continuation [] h = refl
no_continuation (b ∷ bs) h = ground arith

pair-hex_digit :
    (b : ℕ) (rest : Bytes)
    → IsByte b
    → starts_inside rest ≡ false
    → decode_pair (hex_digit (b / 16)) (hex_digit (b % 16)) rest ≡ ok b
unfolding decode_pair
pair-hex_digit b rest h e = ground arith

hex_pairs-hex_lower : (bs : Bytes) → All IsByte bs → hex_pairs (hex_lower bs) ≡ ok bs
unfolding hex_pairs hex_lower
hex_pairs-hex_lower [] h = refl
hex_pairs-hex_lower (b ∷ bs) h =
    rw (pair-hex_digit b (hex_lower bs) h.0 (no_continuation bs h.1))
      (rw (hex_pairs-hex_lower bs h.1))

-- `deserialize` reads back the bytes whose lowercase hex `serialize` wrote.
pub deserialize-hex_lower : (bs : Bytes) → All IsByte bs → deserialize (hex_lower bs) ≡ ok bs
unfolding deserialize
deserialize-hex_lower bs h = rw (as_bytes-hex_lower bs h) (rw even (hex_pairs-hex_lower bs h))
  where
    even : (length (hex_lower bs) % 2 == 0) ≡ true
    even = (==_iff (length (hex_lower bs) % 2) 0).1 (omega (arith, length-hex_lower bs))

one_byte : (a : ℕ) → a < 0x80 → encode_char a ≡ a ∷ []
unfolding encode_char
one_byte a h = ground arith

inside :
    (a c : ℕ) (t : Bytes) → a < 0x80 → 0x80 ≤ c → hex_pairs (a ∷ (encode_char c ++ t)) ≡ err panics
unfolding hex_pairs encode_char
inside a c t h k = ground arith

-- A text of even length in bytes whose second character is not ASCII makes `deserialize` panic
-- where it should return an error: it slices the text inside that character.
pub deserialize_panics :
    (a c : ℕ) (s : Chars)
    → a < 0x80
    → 0x80 ≤ c
    → IsScalar c
    → length (as_bytes (a ∷ c ∷ s)) % 2 ≡ 0
    → deserialize (a ∷ c ∷ s) ≡ err panics
unfolding deserialize as_bytes
deserialize_panics a c s ha hc hs h =
    rw ((==_iff _ _).1 h) (rw (one_byte a ha) (inside a c (as_bytes s) ha hc))
