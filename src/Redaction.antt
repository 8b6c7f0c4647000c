-- ===== src/Redaction.antt =====
-- crates/clipy-si-core/src/redaction: the data types of detector.rs, rules.rs and mask.rs.
pub mod Patterns
pub mod Entropy
pub mod Detector
pub mod Mask
use clipy_si_core.Common.{ℕ, Bool, true, List, []}
use clipy_si_core.Extern.Float.{FloatOps}
use clipy_si_core.Text.{Bytes, Chars, ascii}

-- The category of a detected secret.
pub data SecretKind : Type 0 where
  github_token open_ai_key stripe_key gitlab_token aws_access_key_id : SecretKind
  jwt slack_token google_api_key private_key_block bearer_token : SecretKind
  url_embedded_secret key_value_secret api_token high_entropy_string user_defined : SecretKind

-- `SecretKind::as_str`.
abbrev pub as_str : SecretKind → Bytes
as_str github_token = ascii "GithubToken"
as_str open_ai_key = ascii "OpenAiKey"
as_str stripe_key = ascii "StripeKey"
as_str gitlab_token = ascii "GitlabToken"
as_str aws_access_key_id = ascii "AwsAccessKeyId"
as_str jwt = ascii "Jwt"
as_str slack_token = ascii "SlackToken"
as_str google_api_key = ascii "GoogleApiKey"
as_str private_key_block = ascii "PrivateKeyBlock"
as_str bearer_token = ascii "BearerToken"
as_str url_embedded_secret = ascii "UrlEmbeddedSecret"
as_str key_value_secret = ascii "KeyValueSecret"
as_str api_token = ascii "ApiToken"
as_str high_entropy_string = ascii "HighEntropyString"
as_str user_defined = ascii "UserDefined"

pub data Confidence : Type 0 where
  high medium : Confidence

-- A match in byte offsets.
pub record RawMatch : Type 0 where
  pub start : ℕ
  pub end : ℕ
  pub kind : SecretKind
  pub confidence : Confidence

-- A match in offsets of scalars.
pub record SecretMatch : Type 0 where
  pub kind : SecretKind
  pub start : ℕ
  pub end : ℕ
  pub confidence : Confidence

pub data MaskStyle : Type 0 where
  full prefix2 suffix4 : MaskStyle

pub record UserRule : Type 0 where
  pub name : Chars
  pub regex : Chars
  pub kind_label : Chars

-- The configuration, over the type of `f64`.
pub record MaskConfig (F : Type 0) : Type 0 where
  pub enabled : Bool
  pub style : MaskStyle
  pub min_entropy_len : ℕ
  pub entropy_bits : F
  pub user_rules : List UserRule

abbrev pub default_config : {F : Type 0} → FloatOps F → MaskConfig F
default_config float = record {
  enabled = true;
  style = full;
  min_entropy_len = 24;
  entropy_bits = float.decimal 40 1;
  user_rules = [];
}

abbrev pub rules_version : ℕ
rules_version = 1

pub record MaskEvaluation : Type 0 where
  pub is_secret : Bool
  pub display : Chars
