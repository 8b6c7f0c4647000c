-- ===== src/Redaction/Patterns/Laws.antt =====
-- Where the matches of the pattern sources lie.
use clipy_si_core.Common.{ℕ, ◌≤◌, length, All}
use clipy_si_core.Extern.Regex.{RegexOps}
use clipy_si_core.Redaction.{RawMatch, MaskConfig}
use clipy_si_core.Redaction.Patterns.{
  provider_matches, gated_literal_matches, url_matches, kv_matches, user_matches,
}
use clipy_si_core.Redaction.Patterns.Offsets.{
  provider_matches-At, gated_literal_matches-At, url_matches-At, kv_matches-At, user_matches-At,
}
use clipy_si_core.Text.{Chars, as_bytes}

-- Two offsets in a text of `n` bytes, and those of a match.
abbrev pub Inside : ℕ → ℕ → ℕ → Type 0
Inside n s e = (s ≤ e) × (e ≤ n)

abbrev pub IsInside : ℕ → RawMatch → Type 0
IsInside n m = Inside n m.start m.end

module _ {Regex : Type 0} (regex : RegexOps Regex) (text : Chars) where
  abbrev n : ℕ
  n = length (as_bytes text)

  pub provider_matches-IsInside : All (IsInside n) (provider_matches regex text)
  provider_matches-IsInside =
      provider_matches-At regex text (Inside n) (λ re. regex.find_iter-Inside re text)
        (λ re. regex.captures_iter-Inside re text)

  pub gated_literal_matches-IsInside : All (IsInside n) (gated_literal_matches regex text)
  gated_literal_matches-IsInside =
      gated_literal_matches-At regex text (Inside n) (λ re. regex.find_iter-Inside re text)
        (λ re. regex.captures_iter-Inside re text)

  pub url_matches-IsInside : All (IsInside n) (url_matches regex text)
  url_matches-IsInside =
      url_matches-At regex text (Inside n) (λ re. regex.find_iter-Inside re text)
        (λ re. regex.captures_iter-Inside re text)

  pub kv_matches-IsInside : All (IsInside n) (kv_matches regex text)
  kv_matches-IsInside =
      kv_matches-At regex text (Inside n) (λ re. regex.find_iter-Inside re text)
        (λ re. regex.captures_iter-Inside re text)

  pub user_matches-IsInside :
      {F : Type 0} (config : MaskConfig F) → All (IsInside n) (user_matches regex text config)
  user_matches-IsInside config =
      user_matches-At regex text (Inside n) (λ re. regex.find_iter-Inside re text)
        (λ re. regex.captures_iter-Inside re text) config
