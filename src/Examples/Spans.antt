-- ===== src/Examples/Spans.antt =====
-- Runs of token bytes, matches in another order, and rules of the user.
use clipy_si_core.Common.{
  ℕ, ◌-◌, ◌≡◌, ◌↔◌, refl, true, false, Option, none, some, [], ◌∷◌, take, drop, map, All,
}
use clipy_si_core.Examples.Masking.{toy_regex, toy_float, text, config}
use clipy_si_core.Extern.Regex.{RegexOps}
use clipy_si_core.Redaction.{UserRule, MaskConfig}
use clipy_si_core.Redaction.Detector.{detect_secrets, is_secret}
use clipy_si_core.Redaction.Detector.Rules.{
  unlabelled_match, detect_secrets-Perm, detect_secrets-compiled,
}
use clipy_si_core.Redaction.Entropy.{high_entropy_matches, qualifies, overlaps_any}
use clipy_si_core.Redaction.Entropy.Maximal.{IsMaximal}
use clipy_si_core.Redaction.Entropy.Runs.{Has, IsEntropy, entropy_match, high_entropy_matches_iff}
use clipy_si_core.Redaction.Mask.{mask}
use clipy_si_core.Redaction.Patterns.{user_rule_errors}
use clipy_si_core.Text.{Chars, as_bytes}
use mathlib.Core.List.{Permᴰ}

high_entropy_matches_iff_example :
    ((s e : ℕ)
      → Has (entropy_match s e) (high_entropy_matches toy_float text config ((4, 5) ∷ [])) ↔ (
          IsMaximal (as_bytes text) s e
          × (qualifies toy_float config (take (e - s) (drop s (as_bytes text))) ≡ true)
          × (overlaps_any s e ((4, 5) ∷ []) ≡ false)))
    × All IsEntropy (high_entropy_matches toy_float text config ((4, 5) ∷ []))
high_entropy_matches_iff_example = high_entropy_matches_iff toy_float text config ((4, 5) ∷ [])

abbrev rule : Chars → UserRule
rule pattern = record { name = 1 ∷ pattern; regex = pattern; kind_label = [] }

abbrev ruled : MaskConfig ℕ
ruled = record config { user_rules = rule (5 ∷ []) ∷ rule [] ∷ [] }

abbrev reordered : MaskConfig ℕ
reordered = record config { user_rules = rule [] ∷ rule (5 ∷ []) ∷ [] }

detect_secrets-Perm_example :
    (map unlabelled_match (detect_secrets toy_regex toy_float text ruled)
      ≡ map unlabelled_match (detect_secrets toy_regex toy_float text reordered))
    × (is_secret toy_regex toy_float text ruled ≡ is_secret toy_regex toy_float text reordered)
    × (mask toy_regex toy_float text ruled ≡ mask toy_regex toy_float text reordered)
detect_secrets-Perm_example =
    detect_secrets-Perm toy_regex toy_float text ruled (Permᴰ.swap refl refl)

-- The empty pattern does not compile.
abbrev compile : Chars → Option ℕ
compile [] = none
compile (c ∷ cs) = some c

abbrev picky_regex : RegexOps ℕ
picky_regex = record toy_regex { new = compile }

detect_secrets-compiled_example :
    (detect_secrets picky_regex toy_float text (record config { user_rules = rule (5 ∷ []) ∷ [] })
      ≡ detect_secrets picky_regex toy_float text ruled)
    × (is_secret picky_regex toy_float text (record config { user_rules = rule (5 ∷ []) ∷ [] })
        ≡ is_secret picky_regex toy_float text ruled)
    × (mask picky_regex toy_float text (record config { user_rules = rule (5 ∷ []) ∷ [] })
        ≡ mask picky_regex toy_float text ruled)
    × (user_rule_errors picky_regex ruled ≡ (1 ∷ []) ∷ [])
    × (user_rule_errors picky_regex (record config { user_rules = rule (5 ∷ []) ∷ [] }) ≡ [])
detect_secrets-compiled_example = detect_secrets-compiled picky_regex toy_float text ruled
