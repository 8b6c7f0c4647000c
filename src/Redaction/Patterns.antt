-- ===== src/Redaction/Patterns.antt =====
-- crates/clipy-si-core/src/redaction/patterns.rs: the built-in expressions, the user's rules and the
-- gate on a captured value. Each function returns what the code appends.
pub mod Sources
pub mod Gate
pub mod Offsets
pub mod Laws
pub mod Rules
use clipy_si_core.Common.{
  ℕ, Bool, true, false, Option, none, some, List, [], ◌∷◌, ◌++◌, map, ltb, if◌then◌else◌,
}
use clipy_si_core.Extern.Regex.{RegexOps, Captures}
use clipy_si_core.Redaction.{
  SecretKind, github_token, open_ai_key, stripe_key, gitlab_token, aws_access_key_id, jwt,
  slack_token, google_api_key, private_key_block, bearer_token, url_embedded_secret,
  key_value_secret, api_token, user_defined, RawMatch, high, MaskConfig, UserRule,
}
use clipy_si_core.Redaction.Patterns.Gate.{looks_like_secret_value}
use clipy_si_core.Redaction.Patterns.Sources
use clipy_si_core.Text.{Bytes, Chars}

abbrev raw : SecretKind → ℕ → ℕ → RawMatch
raw kind start end = record { start = start; end = end; kind = kind; confidence = high }

-- The loop of `push_all`: matches that are not empty.
push_spans : SecretKind → List (ℕ × ℕ) → List RawMatch
push_spans kind [] = []
push_spans kind ((start, end) ∷ spans) =
    let rest = push_spans kind spans in if ltb start end then raw kind start end ∷ rest else rest

-- `caps.name("val").map_or("", ..)`.
abbrev value_of : Option Chars → Chars
value_of (some v) = v
value_of none = []

-- The loop of `push_gated`: matches whose value passes the gate.
push_captures : SecretKind → List Captures → List RawMatch
push_captures kind [] = []
push_captures kind (c ∷ cs) =
    let rest = push_captures kind cs in
    if looks_like_secret_value (value_of c.val) then raw kind c.start c.end ∷ rest else rest

module _ {Regex : Type 0} (regex : RegexOps Regex) where
  push_all : Regex → Chars → SecretKind → List RawMatch
  unfolding push_spans
  push_all re text kind = push_spans kind (regex.find_iter re text)

  push_gated : Regex → Chars → SecretKind → List RawMatch
  unfolding push_captures
  push_gated re text kind = push_captures kind (regex.captures_iter re text)

  unfoldable pub provider_matches : Chars → List RawMatch
  unfolding push_all
  provider_matches text =
      push_all (regex.compiled Sources.github_token) text github_token
      ++ push_all (regex.compiled Sources.github_pat) text github_token
      ++ push_all (regex.compiled Sources.openai_key) text open_ai_key
      ++ push_all (regex.compiled Sources.stripe_key) text stripe_key
      ++ push_all (regex.compiled Sources.gitlab_token) text gitlab_token
      ++ push_all (regex.compiled Sources.aws_access_key_id) text aws_access_key_id
      ++ push_all (regex.compiled Sources.jwt) text jwt
      ++ push_all (regex.compiled Sources.slack_token) text slack_token
      ++ push_all (regex.compiled Sources.slack_webhook) text slack_token
      ++ push_all (regex.compiled Sources.google_api_key) text google_api_key
      ++ push_all (regex.compiled Sources.google_oauth_secret) text google_api_key
      ++ push_all (regex.compiled Sources.sendgrid_key) text api_token
      ++ push_all (regex.compiled Sources.npm_token) text api_token
      ++ push_all (regex.compiled Sources.private_key_block) text private_key_block

  unfoldable pub gated_literal_matches : Chars → List RawMatch
  unfolding push_gated
  gated_literal_matches text =
      push_gated (regex.compiled Sources.connection_string) text url_embedded_secret
      ++ push_gated (regex.compiled Sources.authz_bearer) text bearer_token

  unfoldable pub url_matches : Chars → List RawMatch
  unfolding push_gated
  url_matches text =
      push_gated (regex.compiled Sources.url_embedded_secret) text url_embedded_secret

  unfoldable pub kv_matches : Chars → List RawMatch
  unfolding push_gated
  kv_matches text = push_gated (regex.compiled Sources.key_value_secret) text key_value_secret

  unfoldable pub data_uri_spans : Chars → List (ℕ × ℕ)
  data_uri_spans text = regex.find_iter (regex.compiled Sources.data_uri) text

  rule_matches : Option Regex → Chars → List RawMatch
  unfolding push_all
  rule_matches (some re) text = push_all re text user_defined
  rule_matches none text = []

  -- The loop of `user_matches` over the rules.
  match_rules : Chars → List UserRule → List RawMatch
  unfolding rule_matches
  match_rules text [] = []
  match_rules text (rule ∷ rules) =
      rule_matches (regex.new rule.regex) text ++ match_rules text rules

  unfoldable pub user_matches : {F : Type 0} → Chars → MaskConfig F → List RawMatch
  unfolding match_rules
  user_matches text config = match_rules text config.user_rules

  abbrev fails : Option Regex → Bool
  fails none = true
  fails (some re) = false

  broken_names : List UserRule → List Chars
  broken_names [] = []
  broken_names (rule ∷ rules) =
      let rest = broken_names rules in
      if fails (regex.new rule.regex) then rule.name ∷ rest else rest

  -- Names of the user's rules that do not compile.
  unfoldable pub user_rule_errors : {F : Type 0} → MaskConfig F → List Chars
  unfolding broken_names
  user_rule_errors config = broken_names config.user_rules
