-- ===== src/Redaction/Entropy.antt =====
-- crates/clipy-si-core/src/redaction/entropy.rs: the runs of token bytes and the test on each. The
-- floating-point operations are the parameter `FloatOps`.
pub mod Laws
pub mod Maximal
pub mod Runs
pub mod Counts
pub mod Congruence
use clipy_si_core.Common.{
  ℕ, zero, suc, ◌+◌, ◌%◌, Bool, true, false, not, ◌&&◌, ◌||◌, List, [], ◌∷◌, ◌++◌, length, take,
  drop, all, any, map, ltb, leb, ◌==◌, if◌then◌else◌,
}
use clipy_si_core.Extern.Float.{FloatOps}
use clipy_si_core.Record.Words.{u32_mod}
use clipy_si_core.Redaction.{high_entropy_string, medium, RawMatch, MaskConfig}
use clipy_si_core.Redaction.Patterns.Gate.{
  is_ascii_digit, is_ascii_uppercase, is_ascii_lowercase, is_ascii_alphanumeric,
}
use clipy_si_core.Text.{Bytes, Chars, as_bytes}

abbrev pub is_token_byte : ℕ → Bool
is_token_byte b = is_ascii_alphanumeric b || (b == b'+' || b == b'=')

-- `overlaps_any`.
abbrev pub overlaps_any : ℕ → ℕ → List (ℕ × ℕ) → Bool
overlaps_any start end spans = any (λ s. ltb start s.1 && ltb s.0 end) spans

abbrev is_ascii_hexdigit : ℕ → Bool
is_ascii_hexdigit c = is_ascii_digit c || ((leb b'a' c && leb c b'f') || (leb b'A' c && leb c b'F'))

is_plain_hex : Bytes → Bool
is_plain_hex run = all is_ascii_hexdigit run

abbrev count_flag : Bool → ℕ
count_flag true = 1
count_flag false = 0

-- How many of the four classes of characters occur.
class_count : Bytes → ℕ
class_count run =
    count_flag (any is_ascii_lowercase run)
    + count_flag (any is_ascii_uppercase run)
    + count_flag (any is_ascii_digit run)
    + count_flag (any (λ c. c == b'+' || c == b'=') run)

count_byte : ℕ → Bytes → ℕ
count_byte b [] = 0
count_byte b (x ∷ xs) = count_flag (x == b) + count_byte b xs

-- The positive counts of the bytes from `b` on, for `n` values.
pub positive_counts : ℕ → ℕ → Bytes → List ℕ
unfolding count_byte
positive_counts zero b run = []
positive_counts (suc n) b run =
    let rest = positive_counts n (b + 1) run in
    let c = count_byte b run % u32_mod in if c == 0 then rest else c ∷ rest

module _ {F : Type 0} (float : FloatOps F) where
  shannon_entropy : Bytes → F
  unfolding positive_counts
  shannon_entropy run =
      let total = length run % u32_mod in
      if total == 0
      then float.decimal 0 0
      else float.sum (
          map
            (λ c.
              let p = float.div (float.of_nat c) (float.of_nat total) in
              float.mul (float.neg p) (float.log2 p))
            (positive_counts 256 0 run))

  pub qualifies : MaskConfig F → Bytes → Bool
  unfolding is_plain_hex class_count shannon_entropy
  qualifies config run =
      if ltb (length run % u32_mod) config.min_entropy_len
      then false
      else if is_plain_hex run
      then false
      else if ltb (class_count run) 3
      then false
      else if float.lt (shannon_entropy run) config.entropy_bits
      then false
      else float.ge (shannon_entropy run) (
          float.mul (float.decimal 85 2)
            (float.min (float.log2 (float.of_nat (length run))) (float.decimal 60 1)))

  -- The inner loop: how many token bytes follow.
  pub run_length : Bytes → ℕ
  run_length [] = 0
  run_length (b ∷ bs) = let n = run_length bs in if is_token_byte b then suc n else 0

  -- One candidate run.
  pub candidate : MaskConfig F → List (ℕ × ℕ) → ℕ → ℕ → Bytes → List RawMatch
  unfolding qualifies
  candidate config occupied start end run =
      if qualifies config run && not (overlaps_any start end occupied)
      then (record { start = start; end = end; kind = high_entropy_string; confidence = medium })
        ∷ []
      else []

  -- The outer loop at offset `i`, with the bytes that are left, on fuel.
  pub scan : MaskConfig F → List (ℕ × ℕ) → ℕ → ℕ → Bytes → List RawMatch
  unfolding run_length candidate
  scan config occupied zero i bytes = []
  scan config occupied (suc fuel) i [] = []
  scan config occupied (suc fuel) i (b ∷ bs) = elim (is_token_byte b) [
    | false ↦ scan config occupied fuel (i + 1) bs
    | true ↦
        let len = suc (run_length bs) in
        candidate config occupied i (i + len) (take len (b ∷ bs))
        ++ scan config occupied fuel (i + len) (drop len (b ∷ bs))
  ]

  unfoldable pub high_entropy_matches : Chars → MaskConfig F → List (ℕ × ℕ) → List RawMatch
  unfolding scan
  high_entropy_matches text config occupied =
      scan config occupied (length (as_bytes text)) 0 (as_bytes text)
