-- ===== src/Text.antt =====
-- Rust's `String`: Unicode scalars, their UTF-8 bytes, and `String::from_utf8`.
pub mod RoundTrip
mod Examples
use clipy_si_core.Common.{
  ℕ, zero, suc, ◌+◌, ◌-◌, ◌*◌, ◌/◌, ◌%◌, ◌≤◌, ◌<◌, ◌⊎◌, Bool, true, false, ◌&&◌, ◌||◌, Option, none,
  some, List, [], ◌∷◌, ◌++◌, ltb, leb, ◌≡◌, length, if◌then◌else◌,
}
use mathlib.Core.Option
use Prim.Native.Char.{code}
use Prim.Native.String.{String}

-- A `Vec<u8>`.
abbrev pub Bytes : Type 0
Bytes = List ℕ

-- A `String`, as its scalars.
abbrev pub Chars : Type 0
Chars = List ℕ

-- The bytes of an ASCII literal.
abbrev pub ascii : String → Bytes
ascii String.[] = []
ascii (String.◌∷◌ c s) = code c ∷ ascii s

abbrev pub IsByte : ℕ → Type 0
IsByte b = b < 256

abbrev pub IsScalar : ℕ → Type 0
IsScalar c = (c < 0xd800) ⊎ ((0xe000 ≤ c) × (c < 0x11_0000))

abbrev is_scalar : ℕ → Bool
is_scalar c = ltb c 0xd800 || (leb 0xe000 c && ltb c 0x11_0000)

-- `char::len_utf8`.
abbrev pub len_utf8 : ℕ → ℕ
len_utf8 c = if ltb c 0x80 then 1 else if ltb c 0x800 then 2 else if ltb c 0x1_0000 then 3 else 4

-- `char::encode_utf8`.
unfoldable pub encode_char : ℕ → Bytes
encode_char c =
    if ltb c 0x80
    then c ∷ []
    else if ltb c 0x800
    then (0xc0 + c / 64) ∷ (0x80 + c % 64) ∷ []
    else if ltb c 0x1_0000
    then (0xe0 + c / 4096) ∷ (0x80 + c / 64 % 64) ∷ (0x80 + c % 64) ∷ []
    else (0xf0 + c / 0x4_0000)
      ∷ (0x80 + c / 4096 % 64)
      ∷ (0x80 + c / 64 % 64)
      ∷ (0x80 + c % 64)
      ∷ []

-- `str::as_bytes`.
unfoldable pub as_bytes : Chars → Bytes
unfolding encode_char
as_bytes [] = []
as_bytes (c ∷ s) = encode_char c ++ as_bytes s

-- `str::is_char_boundary`: an offset up to which whole scalars are encoded.
abbrev pub IsBoundary : Chars → ℕ → Type 0
IsBoundary text t =
    (pre : Chars) × (suf : Chars) × (text ≡ pre ++ suf) × (t ≡ length (as_bytes pre))

-- The decoder between two bytes: how many continuation bytes are due, the bits so far, and the
-- least scalar that the length is right for.
pub record Pending : Type 0 where
  pub due : ℕ
  pub bits : ℕ
  pub least : ℕ

abbrev pub idle : Pending
idle = record { due = 0; bits = 0; least = 0 }

abbrev pub await : ℕ → ℕ → ℕ → Option (Pending × List ℕ)
await n b lo = some (record { due = n; bits = b; least = lo }, [])

first_byte : ℕ → Option (Pending × List ℕ)
first_byte b =
    if ltb b 0x80
    then some (idle, b ∷ [])
    else if ltb b 0xc2
    then none
    else if ltb b 0xe0
    then await 1 (b - 0xc0) 0x80
    else if ltb b 0xf0
    then await 2 (b - 0xe0) 0x800
    else if ltb b 0xf5
    then await 3 (b - 0xf0) 0x1_0000
    else none

next_byte : ℕ → ℕ → ℕ → ℕ → Option (Pending × List ℕ)
next_byte more bits least b =
    let bits' = bits * 64 + (b - 0x80) in
    if leb 0x80 b && ltb b 0xc0
    then (if ltb 0 more
        then await more bits' least
        else if leb least bits' && is_scalar bits'
        then some (idle, bits' ∷ [])
        else none)
    else none

utf8_step : ℕ → ℕ → ℕ → ℕ → Option (Pending × List ℕ)
unfolding first_byte next_byte
utf8_step zero bits least b = first_byte b
utf8_step (suc more) bits least b = next_byte more bits least b

-- `String::from_utf8`; `none` is its error.
utf8_loop : Pending → Bytes → Option Chars
unfolding utf8_step
utf8_loop p [] = if ltb 0 p.due then none else some []
utf8_loop p (b ∷ bs) = elim (utf8_step p.due p.bits p.least b) [
  | none ↦ none
  | some (q, out) ↦ Option.map (λ s. out ++ s) (utf8_loop q bs)
]

unfoldable pub from_utf8 : Bytes → Option Chars
unfolding utf8_loop
from_utf8 bs = utf8_loop idle bs
