-- ===== src/Extern/Regex.antt =====
-- The `regex` crate: compiled expressions and their matches, by byte offsets in the text.
use clipy_si_core.Common.{ℕ, ◌≤◌, Option, List, length, All}
use clipy_si_core.Text.{Bytes, Chars, as_bytes, IsBoundary}

-- A match with its named group `val`.
pub record Captures : Type 0 where
  pub start : ℕ
  pub end : ℕ
  pub val : Option Chars

pub record RegexOps (Regex : Type 0) : Type 0 where
  -- `Regex::new`; `none` is a pattern that does not compile.
  pub new : Chars → Option Regex
  -- The static of a pattern in the source, which compiles.
  pub compiled : Bytes → Regex
  pub find_iter : Regex → Chars → List (ℕ × ℕ)
  pub captures_iter : Regex → Chars → List Captures
  pub find_iter-Inside :
      (re : Regex) (text : Chars)
      → All (λ s. (s.0 ≤ s.1) × (s.1 ≤ length (as_bytes text))) (find_iter re text)
  pub captures_iter-Inside :
      (re : Regex) (text : Chars)
      → All (λ c. (c.start ≤ c.end) × (c.end ≤ length (as_bytes text))) (captures_iter re text)

-- On text, matches begin and end between scalars.
pub record IsAligned {Regex : Type 0} (regex : RegexOps Regex) : Type 0 where
  pub find_iter-Aligned :
      (re : Regex) (text : Chars)
      → All (λ s. IsBoundary text s.0 × IsBoundary text s.1) (regex.find_iter re text)
  pub captures_iter-Aligned :
      (re : Regex) (text : Chars)
      → All
          (λ c. IsBoundary text (Captures.start c) × IsBoundary text (Captures.end c))
          (regex.captures_iter re text)
