-- ===== src/Redaction/Patterns/Offsets.antt =====
-- What holds of the offsets of every match of the engine holds of those of the pattern sources.
use clipy_si_core.Common.{All-append, ℕ, Option, none, some, List, [], ◌∷◌, arith, All}
use clipy_si_core.Extern.Regex.{RegexOps, Captures}
use clipy_si_core.Redaction.{RawMatch, SecretKind, MaskConfig, UserRule}
use clipy_si_core.Redaction.Patterns.{
  push_spans, push_captures, push_all, push_gated, provider_matches, gated_literal_matches,
  url_matches, kv_matches, user_matches, match_rules, rule_matches,
}
use clipy_si_core.Text.{Chars}

-- A property of the two offsets, of a match.
abbrev pub At : (ℕ → ℕ → Type 0) → RawMatch → Type 0
At P m = P m.start m.end

module _ (kind : SecretKind) (P : ℕ → ℕ → Type 0) where
  push_spans-At :
      (spans : List (ℕ × ℕ)) → All (λ s. P s.0 s.1) spans → All (At P) (push_spans kind spans)
  unfolding push_spans
  push_spans-At [] h = h
  push_spans-At ((s, e) ∷ spans) h = ground (arith, push_spans-At spans h.1)

  push_captures-At :
      (cs : List Captures)
      → All (λ c. P (Captures.start c) (Captures.end c)) cs
      → All (At P) (push_captures kind cs)
  unfolding push_captures
  push_captures-At [] h = h
  push_captures-At (c ∷ cs) h = ground (arith, push_captures-At cs h.1)

module _ {Regex : Type 0} (regex : RegexOps Regex) (text : Chars) (P : ℕ → ℕ → Type 0)
    (finds : (re : Regex) → All (λ s. P s.0 s.1) (regex.find_iter re text))
    (captures : (re : Regex)
      → All (λ c. P (Captures.start c) (Captures.end c)) (regex.captures_iter re text)) where
  push_all-At : (re : Regex) (kind : SecretKind) → All (At P) (push_all regex re text kind)
  unfolding push_all
  push_all-At re kind = push_spans-At kind P (regex.find_iter re text) (finds re)

  push_gated-At : (re : Regex) (kind : SecretKind) → All (At P) (push_gated regex re text kind)
  unfolding push_gated
  push_gated-At re kind = push_captures-At kind P (regex.captures_iter re text) (captures re)

  pub provider_matches-At : All (At P) (provider_matches regex text)
  unfolding provider_matches
  provider_matches-At = search (All-append, push_all-At) depth 40

  pub gated_literal_matches-At : All (At P) (gated_literal_matches regex text)
  unfolding gated_literal_matches
  gated_literal_matches-At = search (All-append, push_gated-At) depth 10

  pub url_matches-At : All (At P) (url_matches regex text)
  unfolding url_matches
  url_matches-At = search push_gated-At

  pub kv_matches-At : All (At P) (kv_matches regex text)
  unfolding kv_matches
  kv_matches-At = search push_gated-At

  rule_matches-At : (o : Option Regex) → All (At P) (rule_matches regex o text)
  unfolding rule_matches
  rule_matches-At (some re) = search push_all-At
  rule_matches-At none = ground arith

  match_rules-At : (rules : List UserRule) → All (At P) (match_rules regex text rules)
  unfolding match_rules
  match_rules-At [] = ground arith
  match_rules-At (rule ∷ rules) =
      All-append (At P) (rule_matches regex (regex.new rule.regex) text)
        (match_rules regex text rules) (rule_matches-At (regex.new rule.regex))
        (match_rules-At rules)

  pub user_matches-At :
      {F : Type 0} (config : MaskConfig F) → All (At P) (user_matches regex text config)
  unfolding user_matches
  user_matches-At config = match_rules-At config.user_rules
