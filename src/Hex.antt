-- ===== src/Hex.antt =====
-- crates/clipy-si-core/src/hexutil.rs, and hex_lower of crypto/mod.rs: bytes as lowercase hex.
pub mod Laws
pub mod Accepts
use clipy_si_core.Common.{
  ℕ, ◌+◌, ◌-◌, ◌*◌, ◌/◌, ◌%◌, Bool, true, false, ◌&&◌, ◌||◌, Option, none, some, List, [], ◌∷◌,
  length, ltb, leb, ◌==◌, if◌then◌else◌,
}
use clipy_si_core.Common.Result.{Result, ok, err, ◌>>=◌, ok_or}
use clipy_si_core.Text.{Bytes, Chars, as_bytes}

-- What `{b:x}` prints of a number below 16.
abbrev hex_digit : ℕ → ℕ
hex_digit n = if ltb n 10 then 48 + n else 87 + n

-- `hex_lower`, and `serialize` but for the serializer that takes the text.
unfoldable pub hex_lower : Bytes → Chars
hex_lower [] = []
hex_lower (b ∷ bs) = hex_digit (b / 16) ∷ hex_digit (b % 16) ∷ hex_lower bs

-- The ways in which `deserialize` does not return bytes. Slicing a `str` inside a character panics.
pub data HexError : Type 0 where
  odd_length bad_digit panics : HexError

-- `char::to_digit(16)`.
abbrev to_digit : ℕ → Option ℕ
to_digit c =
    if leb 48 c && ltb c 58
    then some (c - 48)
    else if leb 97 c && ltb c 103
    then some (c - 87)
    else if leb 65 c && ltb c 71
    then some (c - 55)
    else none

abbrev two_digits : Option ℕ → Option ℕ → Option ℕ
two_digits (some a) (some b) = some (a * 16 + b)
two_digits (some a) none = none
two_digits none b = none

-- `u8::from_str_radix(_, 16)` on two bytes: it takes a leading `+` for a sign.
from_str_radix : ℕ → ℕ → Option ℕ
from_str_radix a b = if a == b'+' then to_digit b else two_digits (to_digit a) (to_digit b)

-- A byte that continues a character: its offset is no character boundary.
abbrev continues : ℕ → Bool
continues b = leb 0x80 b && ltb b 0xc0

abbrev starts_inside : Bytes → Bool
starts_inside [] = false
starts_inside (b ∷ bs) = continues b

decode_pair : ℕ → ℕ → Bytes → Result ℕ HexError
unfolding from_str_radix
decode_pair a b rest =
    if continues a || starts_inside rest then err panics else ok_or (from_str_radix a b) bad_digit

-- The loop over `(0..s.len()).step_by(2)`, on the bytes of a text of even length.
hex_pairs : Bytes → Result Bytes HexError
unfolding decode_pair
hex_pairs [] = ok []
hex_pairs (a ∷ []) = err odd_length
hex_pairs (a ∷ b ∷ rest) = do v ← decode_pair a b rest; vs ← hex_pairs rest; ok (v ∷ vs)

unfoldable pub deserialize : Chars → Result Bytes HexError
unfolding hex_pairs
deserialize s = if length (as_bytes s) % 2 == 0 then hex_pairs (as_bytes s) else err odd_length
