-- ===== src/Redaction/Patterns/Rules.antt =====
-- The user's rules: their order, and those that do not compile.
use clipy_si_core.Common.{
  ◌≡◌, refl, ap, ap₂, ◌∙◌, inl, inr, Bool, not, Option-cases, List, [], ◌∷◌, ◌++◌, map, keep, arith,
}
use clipy_si_core.Common.Permutations.{Perm-eq, Perm-blocks}
use clipy_si_core.Extern.Regex.{RegexOps}
use clipy_si_core.Redaction.{RawMatch, MaskConfig, UserRule}
use clipy_si_core.Redaction.Patterns.{
  match_rules, rule_matches, user_matches, user_rule_errors, broken_names, fails,
}
use clipy_si_core.Text.{Chars}
use mathlib.Core.List.{Permᴰ}
use mathlib.Core.List.Permᴰ as Perm

module _ {Regex : Type 0} (regex : RegexOps Regex) where
  -- Whether a rule compiles.
  abbrev pub is_broken : UserRule → Bool
  is_broken rule = fails regex (regex.new rule.regex)

  abbrev found : Chars → UserRule → List RawMatch
  found text r = rule_matches regex (regex.new r.regex) text

  Perm-match_rules :
      (text : Chars) {xs ys : List UserRule}
      → Permᴰ xs ys
      → Permᴰ (match_rules regex text xs) (match_rules regex text ys)
  unfolding match_rules
  Perm-match_rules text Permᴰ.nil = Permᴰ.nil
  Perm-match_rules text (Permᴰ.cons {a} {b} {l₁} {l₂} e d) =
      Permᴰ.trans (Perm.append_left (found text a) (Perm-match_rules text d))
        (Perm-eq (ap (λ r. found text r ++ match_rules regex text l₂) e))
  Perm-match_rules text (Permᴰ.swap {a} {b} {l = l} e f) =
      Permᴰ.trans (Perm-blocks (found text a) (found text b) (match_rules regex text l))
        (Perm-eq (ap₂ (λ x y. found text x ++ (found text y ++ match_rules regex text l)) f e))
  Perm-match_rules text (Permᴰ.trans d d') =
      Permᴰ.trans (Perm-match_rules text d) (Perm-match_rules text d')

  -- A rule that does not compile matches nothing.
  match_rules-keep :
      (text : Chars) (rules : List UserRule)
      → match_rules regex text (keep (λ r. not (is_broken r)) rules) ≡ match_rules regex text rules
  unfolding match_rules rule_matches
  match_rules-keep text [] = refl
  match_rules-keep text (rule ∷ rules) = elim (Option-cases (regex.new rule.regex)) [
    | inl n ↦ rw (n, match_rules, keep) (match_rules-keep text rules)
    | inr (re, n) ↦
        let kept : keep (λ r. not (is_broken r)) (rule ∷ rules)
            ≡ rule ∷ keep (λ r. not (is_broken r)) rules =
          rw (n, keep) refl in
        ap (match_rules regex text) kept
        ∙ ap (λ ms. found text rule ++ ms) (match_rules-keep text rules)
  ]

  -- The names that are reported are those of the rules that do not compile, in their order.
  broken_names-keep :
      (rules : List UserRule)
      → broken_names regex rules ≡ map (λ r. UserRule.name r) (keep is_broken rules)
  unfolding broken_names
  broken_names-keep [] = refl
  broken_names-keep (rule ∷ rules) = ground (arith, broken_names-keep rules)

  module _ {F : Type 0} (config : MaskConfig F) where
    -- The user's matches under rules in another order are the same, in another order.
    pub Perm-user_matches :
        (text : Chars) {rules : List UserRule}
        → Permᴰ config.user_rules rules
        → Permᴰ
            (user_matches regex text config)
            (user_matches regex text (record config { user_rules = rules }))
    unfolding user_matches
    Perm-user_matches text d = Perm-match_rules text d

    -- Without the rules that do not compile, the user's matches are the same.
    pub user_matches-keep :
        (text : Chars)
        → user_matches regex text
            (record config { user_rules = keep (λ r. not (is_broken r)) config.user_rules })
          ≡ user_matches regex text config
    unfolding user_matches
    user_matches-keep text = match_rules-keep text config.user_rules

    pub user_rule_errors_lem :
        user_rule_errors regex config
        ≡ map (λ r. UserRule.name r) (keep is_broken config.user_rules)
    unfolding user_rule_errors
    user_rule_errors_lem = broken_names-keep config.user_rules
