-- ===== src/Ffi/Redaction/Laws.antt =====
-- The masking calls through the binding, and the configuration that crosses it.
use clipy_si_core.Common.{◌≡◌, ◌↔◌, refl, ap, subst, ◌∙◌, List, [], ◌∷◌, map, false, arith}
use clipy_si_core.Extern.Float.{FloatOps}
use clipy_si_core.Extern.Regex.{RegexOps}
use clipy_si_core.Ffi.Redaction.{
  MaskStyleFfi, full, prefix2, suffix4, ConfidenceFfi, high, medium, SecretMatchFfi, UserRuleFfi,
  MaskConfigFfi, to_style, from_style, to_rule, from_rule, to_config, from_config, from_confidence,
  from_match, from_evaluation,
}
use clipy_si_core.Ffi.Redaction
use clipy_si_core.Redaction.{MaskStyle, Confidence, SecretMatch, as_str, UserRule, MaskConfig}
use clipy_si_core.Redaction as Core
use clipy_si_core.Redaction.Detector
use clipy_si_core.Redaction.Detector.Laws.{is_secret_iff}
use clipy_si_core.Redaction.Mask
use clipy_si_core.Redaction.Mask.Laws.{evaluate_lem}
use clipy_si_core.Text.{Chars}

from_style-to_style : (s : MaskStyleFfi) → from_style (to_style s) ≡ s
from_style-to_style s = ground arith

to_style-from_style : (s : MaskStyle) → to_style (from_style s) ≡ s
to_style-from_style s = ground arith

rules_back : (rs : List UserRuleFfi) → map from_rule (map to_rule rs) ≡ rs
rules_back [] = refl
rules_back (r ∷ rs) = ap (◌∷◌ r) (rules_back rs)

rules_forth : (rs : List UserRule) → map to_rule (map from_rule rs) ≡ rs
rules_forth [] = refl
rules_forth (r ∷ rs) = ap (◌∷◌ r) (rules_forth rs)

-- A configuration of the binding comes back unchanged from the core, and one of the core from the
-- binding.
pub to_config-from_config :
    {F : Type 0} (c : MaskConfig F) (d : MaskConfigFfi F)
    → (to_config (from_config c) ≡ c) × (from_config (to_config d) ≡ d)
to_config-from_config c d = (
  ground (arith, to_style-from_style c.style, rules_forth c.user_rules),
  ground (arith, from_style-to_style d.style, rules_back d.user_rules),
)

-- The binding's types beside the core's, field by field.
pub data SameStyle : MaskStyleFfi → MaskStyle → Type 0 where
  both_full : SameStyle full Core.full
  both_prefix2 : SameStyle prefix2 Core.prefix2
  both_suffix4 : SameStyle suffix4 Core.suffix4

pub data SameConfidence : ConfidenceFfi → Confidence → Type 0 where
  both_high : SameConfidence high Core.high
  both_medium : SameConfidence medium Core.medium

abbrev pub SameRule : UserRuleFfi → UserRule → Type 0
SameRule r s = (r.name ≡ s.name) × (r.regex ≡ s.regex) × (r.kind_label ≡ s.kind_label)

-- The kind is given by its label.
abbrev pub SameMatch : SecretMatchFfi → SecretMatch → Type 0
SameMatch m n =
    (m.kind ≡ as_str n.kind)
    × (m.start ≡ n.start)
    × (m.end ≡ n.end)
    × SameConfidence m.confidence n.confidence

-- Lists of one length that are related place by place.
abbrev pub Pointwise : {A B : Type 0} → (A → B → Type 0) → List A → List B → Type 0
Pointwise r [] [] = Unit {0}
Pointwise r [] (y ∷ ys) = ⊥
Pointwise r (x ∷ xs) [] = ⊥
Pointwise r (x ∷ xs) (y ∷ ys) = r x y × Pointwise r xs ys

abbrev pub Mirrors : {F : Type 0} → MaskConfigFfi F → MaskConfig F → Type 0
Mirrors c d =
    (c.enabled ≡ d.enabled)
    × SameStyle c.style d.style
    × (c.min_entropy_len ≡ d.min_entropy_len)
    × (c.entropy_bits ≡ d.entropy_bits)
    × Pointwise SameRule c.user_rules d.user_rules

to_style-SameStyle : {s : MaskStyleFfi} {t : MaskStyle} → SameStyle s t → to_style s ≡ t
to_style-SameStyle both_full = refl
to_style-SameStyle both_prefix2 = refl
to_style-SameStyle both_suffix4 = refl

to_rule-SameRule :
    (rs : List UserRuleFfi) (ss : List UserRule) → Pointwise SameRule rs ss → map to_rule rs ≡ ss
to_rule-SameRule [] [] p = refl
to_rule-SameRule [] (s ∷ ss) p = absurd p
to_rule-SameRule (r ∷ rs) [] p = absurd p
to_rule-SameRule (r ∷ rs) (s ∷ ss) p = ground (arith, p, to_rule-SameRule rs ss p.1)

to_config-Mirrors :
    {F : Type 0} (c : MaskConfigFfi F) (d : MaskConfig F) → Mirrors c d → to_config c ≡ d
to_config-Mirrors c d m =
    ground (arith, m, to_style-SameStyle m.1, to_rule-SameRule c.user_rules d.user_rules m.4)

from_confidence-SameConfidence : (c : Confidence) → SameConfidence (from_confidence c) c
from_confidence-SameConfidence Core.high = both_high
from_confidence-SameConfidence Core.medium = both_medium

from_match-SameMatch : (ms : List SecretMatch) → Pointwise SameMatch (map from_match ms) ms
from_match-SameMatch [] = tt
from_match-SameMatch (m ∷ ms) =
    ((refl, refl, refl, from_confidence-SameConfidence m.confidence), from_match-SameMatch ms)

nil-map : {A B : Type 0} (f : A → B) (xs : List A) → (xs ≡ []) ↔ (map f xs ≡ [])
nil-map f [] = ground arith
nil-map f (x ∷ xs) = ground arith

module _ {Regex F : Type 0} (regex : RegexOps Regex) (float : FloatOps F) (text : Chars)
    (config : MaskConfigFfi F) where
  reports_ffi :
      (Redaction.is_secret regex float text config ≡ false)
      ↔ (Redaction.detect_secrets regex float text config ≡ [])
  unfolding Redaction.is_secret Redaction.detect_secrets
  reports_ffi =
      let matches = Detector.detect_secrets regex float text (to_config config) in
      let verdict = is_secret_iff regex float text (to_config config) in
      (
        (λ h. (nil-map from_match matches).0 (verdict.0 h)),
        (λ h. verdict.1 ((nil-map from_match matches).1 h)),
      )

  -- For a configuration of the core with the same switch, style, thresholds and rules as the
  -- binding's: the matches that the binding reports are those of the core in their order, each with
  -- the same start, end and confidence and with the label of its kind; its verdict and its masked
  -- text are those of the core, in the two separate calls and in `evaluate`; and the verdict is
  -- false exactly if the binding reports no match.
  pub evaluate_ffi :
      (core : MaskConfig F)
      → Mirrors config core
      → Pointwise SameMatch
          (Redaction.detect_secrets regex float text config)
          (Detector.detect_secrets regex float text core)
        × (Redaction.is_secret regex float text config ≡ Detector.is_secret regex float text core)
        × (Redaction.mask regex float text config ≡ Mask.mask regex float text core)
        × (Redaction.evaluate regex float text config ≡ record {
          is_secret = Detector.is_secret regex float text core;
          display = Mask.mask regex float text core;
        })
        × ((Redaction.is_secret regex float text config ≡ false)
            ↔ (Redaction.detect_secrets regex float text config ≡ []))
  unfolding Redaction.evaluate Redaction.is_secret Redaction.mask Redaction.detect_secrets
  evaluate_ffi core m =
      let e = to_config-Mirrors config core m in
      (
        subst
            (λ c.
              Pointwise SameMatch
                (map from_match (Detector.detect_secrets regex float text (to_config config)))
                (Detector.detect_secrets regex float text c))
            e (from_match-SameMatch (Detector.detect_secrets regex float text (to_config config))),
        ap (Detector.is_secret regex float text) e,
        ap (Mask.mask regex float text) e,
        ap from_evaluation
            (ap (Mask.evaluate regex float text) e ∙ evaluate_lem regex float text core),
        reports_ffi,
      )
