-- ===== src/Redaction/Detector/Rules.antt =====
-- What the user's rules have to do with the result of the detector: their order, and rules that do
-- not compile.
use clipy_si_core.Common.{
  ◌≡◌, refl, sym, ap, ◌∙◌, Bool, not, Bool-cases, inl, inr, ◌&&◌, ◌||◌, List, [], ◌∷◌, ◌++◌, map,
  if◌then◌else◌, keep, ltb, All,
}
use clipy_si_core.Common.Permutations.{Perm-eq, Perm-map, Perm-any}
use clipy_si_core.Extern.Float.{FloatOps}
use clipy_si_core.Extern.Regex.{RegexOps}
use clipy_si_core.Redaction.{RawMatch, SecretMatch, MaskConfig, UserRule, user_defined}
use clipy_si_core.Redaction.Detector.{
  spans, collect_raw, detect_secrets, is_secret, is_empty, merge_non_overlapping,
}
use clipy_si_core.Redaction.Detector.Laws.{detect_secrets_lem, converted, collect_raw-IsInside}
use clipy_si_core.Redaction.Detector.Unordered.{unlabelled, IsForward, merge_non_overlapping-Perm}
use clipy_si_core.Redaction.Entropy.{overlaps_any, high_entropy_matches}
use clipy_si_core.Redaction.Entropy.Congruence.{high_entropy_matches-cong}
use clipy_si_core.Redaction.Entropy.Laws.{weaken-All}
use clipy_si_core.Redaction.Patterns.{
  user_matches, data_uri_spans, user_rule_errors, provider_matches, gated_literal_matches,
  url_matches, kv_matches,
}
use clipy_si_core.Redaction.Patterns.Rules.{
  user_rule_errors_lem, is_broken, Perm-user_matches, user_matches-keep,
}
use clipy_si_core.Redaction.Mask.{mask, evaluate, styled}
use clipy_si_core.Text.{Chars}
use mathlib.Core.List.{Permᴰ}
use mathlib.Core.List.Permᴰ as Perm

Perm-is_empty : {xs ys : List RawMatch} → Permᴰ xs ys → is_empty xs ≡ is_empty ys
Perm-is_empty Permᴰ.nil = refl
Perm-is_empty (Permᴰ.cons e d) = refl
Perm-is_empty (Permᴰ.swap e f) = refl
Perm-is_empty (Permᴰ.trans d d') = Perm-is_empty d ∙ Perm-is_empty d'

-- A match without the label of its kind.
abbrev pub unlabelled_match : SecretMatch → SecretMatch
unlabelled_match m = record m { kind = user_defined }

labels :
    (text : Chars) (ms : List RawMatch)
    → map unlabelled_match (map (converted text) ms) ≡ map (converted text) (map unlabelled ms)
labels text [] = refl
labels text (m ∷ ms) = ap (◌∷◌ (converted text (unlabelled m))) (labels text ms)

none_broken : (p : UserRule → Bool) (rs : List UserRule) → keep p (keep (λ r. not (p r)) rs) ≡ []
none_broken p [] = refl
none_broken p (r ∷ rs) = elim (Bool-cases (p r)) [
  | inl e ↦ rw (e, keep) (none_broken p rs)
  | inr e ↦ rw (e, keep) (rw e (none_broken p rs))
]

module _ {Regex F : Type 0} (regex : RegexOps Regex) (float : FloatOps F) (text : Chars)
    (config : MaskConfig F) where
  abbrev with_rules : List UserRule → MaskConfig F
  with_rules rules = record config { user_rules = rules }

  -- What the sources other than the user's rules and the entropy test append.
  abbrev builtin : List RawMatch
  builtin =
      provider_matches regex text
      ++ gated_literal_matches regex text
      ++ url_matches regex text
      ++ keep
          (λ m.
            not (overlaps_any (RawMatch.start m) (RawMatch.end m) (spans (url_matches regex text))))
          (kv_matches regex text)

  -- The raw matches of a configuration, given the user's.
  abbrev raw_with : List RawMatch → List RawMatch
  raw_with users =
      (builtin ++ users)
      ++ high_entropy_matches float text config
          (spans (builtin ++ users) ++ data_uri_spans regex text)

  collect_raw_with :
      (rules : List UserRule)
      → collect_raw regex float text (with_rules rules)
        ≡ raw_with (user_matches regex text (with_rules rules))
  unfolding collect_raw
  collect_raw_with rules =
      ap (λ ms. (builtin ++ user_matches regex text (with_rules rules)) ++ ms)
        (sym (high_entropy_matches-cong float config rules _ _ (λ s e. refl) text))

  Perm-raw_with : {us vs : List RawMatch} → Permᴰ us vs → Permᴰ (raw_with us) (raw_with vs)
  Perm-raw_with {us} {vs} d =
      let users = Perm.append_left builtin d in
      let occupied =
        Perm.append_right (data_uri_spans regex text)
          (Perm-map (λ m. (RawMatch.start m, RawMatch.end m)) users) in
      let entropy =
        high_entropy_matches-cong float config config.user_rules
          (spans (builtin ++ us) ++ data_uri_spans regex text)
          (spans (builtin ++ vs) ++ data_uri_spans regex text)
          (λ s e. Perm-any (λ p. ltb s p.1 && ltb p.0 e) occupied) text in
      Permᴰ.trans
        (Perm.append_right
          (high_entropy_matches float text config
            (spans (builtin ++ us) ++ data_uri_spans regex text))
          users)
        (Perm-eq (ap (λ ms. (builtin ++ vs) ++ ms) entropy))

  Perm-collect_raw :
      {rules : List UserRule}
      → Permᴰ config.user_rules rules
      → Permᴰ
          (collect_raw regex float text config)
          (collect_raw regex float text (with_rules rules))
  Perm-collect_raw {rules} d = Permᴰ.trans (Perm-eq (collect_raw_with config.user_rules)) (
      Permᴰ.trans (Perm-raw_with (Perm-user_matches regex config text d))
        (Perm-eq (sym (collect_raw_with rules))))

  detect_secrets-collect_raw :
      (c : MaskConfig F)
      → map unlabelled_match (detect_secrets regex float text c)
        ≡ map
            (converted text)
            (map unlabelled (merge_non_overlapping (collect_raw regex float text c)))
  detect_secrets-collect_raw c =
      ap (map unlabelled_match) (detect_secrets_lem regex float text c)
      ∙ labels text (merge_non_overlapping (collect_raw regex float text c))

  collect_raw-IsForward : (c : MaskConfig F) → All IsForward (collect_raw regex float text c)
  collect_raw-IsForward c =
      weaken-All (collect_raw regex float text c) (λ m h. h.0)
        (collect_raw-IsInside regex float text c)

  -- The order of the user's rules changes no reported span and no confidence, labels left aside,
  -- nor the verdict, nor what the mask displays.
  pub detect_secrets-Perm :
      {rules : List UserRule}
      → Permᴰ config.user_rules rules
      → (map unlabelled_match (detect_secrets regex float text config)
          ≡ map unlabelled_match (detect_secrets regex float text (with_rules rules)))
        × (is_secret regex float text config ≡ is_secret regex float text (with_rules rules))
        × (mask regex float text config ≡ mask regex float text (with_rules rules))
  unfolding is_secret mask evaluate
  detect_secrets-Perm {rules} d =
      let raw = Perm-collect_raw d in
      let verdict = ap not (Perm-is_empty raw) in
      (
        detect_secrets-collect_raw config
            ∙ ap (map (converted text))
                (merge_non_overlapping-Perm raw (collect_raw-IsForward config))
            ∙ sym (detect_secrets-collect_raw (with_rules rules)),
        verdict,
        ap
            (λ secret.
              if not config.enabled
              then text
              else if not config.enabled || not secret
              then text
              else styled config.style text)
            verdict,
      )

  abbrev compiled : MaskConfig F
  compiled = with_rules (keep (λ r. not (is_broken regex r)) config.user_rules)

  collect_raw-compiled : collect_raw regex float text compiled ≡ collect_raw regex float text config
  collect_raw-compiled =
      collect_raw_with compiled.user_rules
      ∙ ap raw_with (user_matches-keep regex config text)
      ∙ sym (collect_raw_with config.user_rules)

  -- A rule that does not compile changes nothing: without such rules the matches, the verdict and
  -- the display are the same, the names of exactly those rules are reported, and without them none.
  pub detect_secrets-compiled :
      (detect_secrets regex float text compiled ≡ detect_secrets regex float text config)
      × (is_secret regex float text compiled ≡ is_secret regex float text config)
      × (mask regex float text compiled ≡ mask regex float text config)
      × (user_rule_errors regex config
          ≡ map (λ r. UserRule.name r) (keep (is_broken regex) config.user_rules))
      × (user_rule_errors regex compiled ≡ [])
  unfolding detect_secrets is_secret mask evaluate
  detect_secrets-compiled = (
    rw collect_raw-compiled refl,
    rw collect_raw-compiled refl,
    rw collect_raw-compiled refl,
    user_rule_errors_lem regex config,
    user_rule_errors_lem regex compiled
        ∙ ap (map (λ r. UserRule.name r)) (none_broken (is_broken regex) config.user_rules),
  )
