-- ===== src/Ffi/Redaction.antt =====
-- The masking calls of crates/clipy-si-core-ffi/src/lib.rs and the mirrors of the core's types that
-- they pass. The arms that a `non_exhaustive` type asks for match no value of the core's types.
pub mod Laws
use clipy_si_core.Common.{ℕ, Bool, List, map}
use clipy_si_core.Extern.Float.{FloatOps}
use clipy_si_core.Extern.Regex.{RegexOps}
use clipy_si_core.Redaction.{
  MaskStyle, Confidence, SecretMatch, as_str, UserRule, MaskConfig, MaskEvaluation,
}
use clipy_si_core.Redaction
use clipy_si_core.Redaction.Detector
use clipy_si_core.Redaction.Mask
use clipy_si_core.Redaction.Patterns
use clipy_si_core.Text.{Bytes, Chars}

pub data MaskStyleFfi : Type 0 where
  full prefix2 suffix4 : MaskStyleFfi

abbrev pub to_style : MaskStyleFfi → MaskStyle
to_style full = Redaction.full
to_style prefix2 = Redaction.prefix2
to_style suffix4 = Redaction.suffix4

abbrev pub from_style : MaskStyle → MaskStyleFfi
from_style Redaction.full = full
from_style Redaction.prefix2 = prefix2
from_style Redaction.suffix4 = suffix4

pub data ConfidenceFfi : Type 0 where
  high medium : ConfidenceFfi

abbrev pub from_confidence : Confidence → ConfidenceFfi
from_confidence Redaction.high = high
from_confidence Redaction.medium = medium

-- A match, with the label of its kind.
pub record SecretMatchFfi : Type 0 where
  pub kind : Bytes
  pub start : ℕ
  pub end : ℕ
  pub confidence : ConfidenceFfi

abbrev pub from_match : SecretMatch → SecretMatchFfi
from_match m = record {
  kind = as_str m.kind;
  start = m.start;
  end = m.end;
  confidence = from_confidence m.confidence;
}

pub record UserRuleFfi : Type 0 where
  pub name : Chars
  pub regex : Chars
  pub kind_label : Chars

abbrev pub to_rule : UserRuleFfi → UserRule
to_rule r = record { name = r.name; regex = r.regex; kind_label = r.kind_label }

-- The closure in the conversion of the configuration.
abbrev pub from_rule : UserRule → UserRuleFfi
from_rule r = record { name = r.name; regex = r.regex; kind_label = r.kind_label }

pub record MaskConfigFfi (F : Type 0) : Type 0 where
  pub enabled : Bool
  pub style : MaskStyleFfi
  pub min_entropy_len : ℕ
  pub entropy_bits : F
  pub user_rules : List UserRuleFfi

abbrev pub to_config : {F : Type 0} → MaskConfigFfi F → MaskConfig F
to_config c = record {
  enabled = c.enabled;
  style = to_style c.style;
  min_entropy_len = c.min_entropy_len;
  entropy_bits = c.entropy_bits;
  user_rules = map to_rule c.user_rules;
}

abbrev pub from_config : {F : Type 0} → MaskConfig F → MaskConfigFfi F
from_config c = record {
  enabled = c.enabled;
  style = from_style c.style;
  min_entropy_len = c.min_entropy_len;
  entropy_bits = c.entropy_bits;
  user_rules = map from_rule c.user_rules;
}

pub record MaskEvaluationFfi : Type 0 where
  pub is_secret : Bool
  pub display : Chars

abbrev pub from_evaluation : MaskEvaluation → MaskEvaluationFfi
from_evaluation e = record { is_secret = e.is_secret; display = e.display }

unfoldable pub default_config : {F : Type 0} → FloatOps F → MaskConfigFfi F
default_config float = from_config (Redaction.default_config float)

abbrev pub rules_version : ℕ
rules_version = Redaction.rules_version

module _ {Regex F : Type 0} (regex : RegexOps Regex) (float : FloatOps F) where
  unfoldable pub detect_secrets : Chars → MaskConfigFfi F → List SecretMatchFfi
  detect_secrets text config =
      map from_match (Detector.detect_secrets regex float text (to_config config))

  unfoldable pub is_secret : Chars → MaskConfigFfi F → Bool
  is_secret text config = Detector.is_secret regex float text (to_config config)

  unfoldable pub evaluate : Chars → MaskConfigFfi F → MaskEvaluationFfi
  evaluate text config = from_evaluation (Mask.evaluate regex float text (to_config config))

  unfoldable pub mask : Chars → MaskConfigFfi F → Chars
  mask text config = Mask.mask regex float text (to_config config)

module _ {Regex F : Type 0} (regex : RegexOps Regex) where
  unfoldable pub user_rule_errors : MaskConfigFfi F → List Chars
  user_rule_errors config = Patterns.user_rule_errors regex (to_config config)
