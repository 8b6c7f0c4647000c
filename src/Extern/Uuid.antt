-- ===== src/Extern/Uuid.antt =====
-- The `uuid` crate: 16 bytes compared as bytes, and the hyphenated text form.
use clipy_si_core.Common.{◌≡◌, List, [], ◌∷◌, Option, none, some, ℕ, refl}

pub record UuidOps (Uuid : Type 0) : Type 0 where
  pub as_bytes : Uuid → List ℕ
  pub to_string : Uuid → List ℕ
  pub parse_str : List ℕ → Option Uuid
  pub as_bytes_injective : (a b : Uuid) → as_bytes a ≡ as_bytes b → a ≡ b
  pub parse_str-to_string : (u : Uuid) → parse_str (to_string u) ≡ some u

-- A model of the laws, for the examples: a UUID is its text.
abbrev pub text_uuid : UuidOps (List ℕ)
text_uuid = record {
  as_bytes = λ u. u;
  to_string = λ u. u;
  parse_str = λ s. some s;
  as_bytes_injective = λ a b h. h;
  parse_str-to_string = λ u. refl;
}

abbrev pub parse_one : List ℕ → Option ℕ
parse_one [] = none
parse_one (n ∷ []) = some n
parse_one (n ∷ m ∷ ns) = none

pub single_injective : (a b : ℕ) → ◌≡◌ {A = List ℕ} (a ∷ []) (b ∷ []) → a ≡ b
single_injective a b h = cc

-- Another: a UUID is a number, and its text that one character.
abbrev pub number_uuid : UuidOps ℕ
number_uuid = record {
  as_bytes = λ n. n ∷ [];
  to_string = λ n. n ∷ [];
  parse_str = parse_one;
  as_bytes_injective = single_injective;
  parse_str-to_string = λ n. refl;
}
