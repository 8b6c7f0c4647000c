-- ===== src/Record/Words.antt =====
-- `u32::to_le_bytes`, `u32::from_le_bytes`, `as u32` and `usize::checked_add` on a 64-bit target.
use clipy_si_core.Common.{
  ℕ, ◌+◌, ◌*◌, ◌/◌, ◌%◌, ◌<◌, ◌≡◌, Option, none, some, [], ◌∷◌, arith, ltb, if◌then◌else◌,
}
use clipy_si_core.Text.{Bytes, IsByte}

abbrev pub u32_mod : ℕ
u32_mod = 0x1_0000_0000

-- A length below this is one that a `Vec` can have.
abbrev pub isize_mod : ℕ
isize_mod = 0x8000_0000_0000_0000

abbrev pub to_le_bytes : ℕ → Bytes
to_le_bytes n = (n % 256) ∷ (n / 256 % 256) ∷ (n / 65536 % 256) ∷ (n / 16777216 % 256) ∷ []

-- The four bytes of a slice whose length the caller has checked.
abbrev pub from_le_bytes : Bytes → ℕ
from_le_bytes (a ∷ b ∷ c ∷ d ∷ r) = a + b * 256 + c * 65536 + d * 16777216
from_le_bytes s = 0

abbrev pub checked_add : ℕ → ℕ → Option ℕ
checked_add a b = if ltb (a + b) 0x1_0000_0000_0000_0000 then some (a + b) else none

pub from_le_bytes-to_le_bytes : (n : ℕ) → n < u32_mod → from_le_bytes (to_le_bytes n) ≡ n
from_le_bytes-to_le_bytes n h = omega arith

pub to_le_bytes-from_le_bytes :
    (a b c d : ℕ)
    → IsByte a
    → IsByte b
    → IsByte c
    → IsByte d
    → to_le_bytes (from_le_bytes (a ∷ b ∷ c ∷ d ∷ [])) ≡ a ∷ b ∷ c ∷ d ∷ []
to_le_bytes-from_le_bytes a b c d p q r s = ground arith
