-- ===== src/Redaction/Patterns/Gate.antt =====
-- `looks_like_secret_value` and `is_pathlike` of patterns.rs.
pub mod Laws
mod Examples
use clipy_si_core.Common.{
  ℕ, ◌+◌, Bool, true, false, not, ◌&&◌, ◌||◌, List, [], ◌∷◌, ◌++◌, length, all, any, eq_bytes, ltb,
  leb, ◌==◌, if◌then◌else◌,
}
use clipy_si_core.Text.{Bytes, Chars, ascii}

abbrev pub is_ascii_digit : ℕ → Bool
is_ascii_digit c = leb b'0' c && leb c b'9'

abbrev pub is_ascii_uppercase : ℕ → Bool
is_ascii_uppercase c = leb b'A' c && leb c b'Z'

abbrev pub is_ascii_lowercase : ℕ → Bool
is_ascii_lowercase c = leb b'a' c && leb c b'z'

abbrev pub is_ascii_alphanumeric : ℕ → Bool
is_ascii_alphanumeric c = is_ascii_digit c || (is_ascii_uppercase c || is_ascii_lowercase c)

-- The fragments that are looked for anywhere in a value.
abbrev pub strong_placeholder_fragments : List Bytes
strong_placeholder_fragments =
    ascii "changeme"
    ∷ ascii "change_me"
    ∷ ascii "change-me"
    ∷ ascii "replaceme"
    ∷ ascii "replace_me"
    ∷ ascii "replace-me"
    ∷ ascii "placeholder"
    ∷ ascii "yourkey"
    ∷ ascii "your_key"
    ∷ ascii "your-key"
    ∷ ascii "yourapikey"
    ∷ ascii "your_api_key"
    ∷ ascii "yoursecret"
    ∷ ascii "your_secret"
    ∷ ascii "examplekey"
    ∷ ascii "example_key"
    ∷ ascii "insertyour"
    ∷ ascii "xxxxxxxx"
    ∷ []

-- The words that are looked for as whole tokens.
abbrev placeholder_words : List Bytes
placeholder_words =
    ascii "your"
    ∷ ascii "yours"
    ∷ ascii "replace"
    ∷ ascii "example"
    ∷ ascii "sample"
    ∷ ascii "placeholder"
    ∷ ascii "todo"
    ∷ ascii "fixme"
    ∷ ascii "dummy"
    ∷ ascii "redacted"
    ∷ ascii "none"
    ∷ ascii "null"
    ∷ ascii "nil"
    ∷ ascii "undefined"
    ∷ ascii "here"
    ∷ ascii "change"
    ∷ ascii "changeme"
    ∷ ascii "username"
    ∷ ascii "password"
    ∷ ascii "passwd"
    ∷ ascii "user"
    ∷ ascii "pass"
    ∷ ascii "host"
    ∷ ascii "secret"
    ∷ ascii "test"
    ∷ ascii "foo"
    ∷ ascii "bar"
    ∷ ascii "baz"
    ∷ ascii "xxx"
    ∷ ascii "xxxx"
    ∷ []

abbrev pub is_quote : ℕ → Bool
is_quote c = c == 34 || c == 39

-- `trim_matches` on quotes: from the front, and from the back.
trim_start : Chars → Chars
trim_start [] = []
trim_start (c ∷ cs) = if is_quote c then trim_start cs else c ∷ cs

trim_end : Chars → Chars
trim_end [] = []
trim_end (c ∷ cs) =
    let rest = trim_end cs in if is_quote c && eq_bytes rest [] then [] else c ∷ rest

pub trim_matches : Chars → Chars
unfolding trim_start trim_end
trim_matches s = trim_end (trim_start s)

pub to_ascii_lowercase : Chars → Chars
to_ascii_lowercase [] = []
to_ascii_lowercase (c ∷ cs) = (if is_ascii_uppercase c then c + 32 else c) ∷ to_ascii_lowercase cs

starts_with : Chars → Bytes → Bool
starts_with s [] = true
starts_with [] (p ∷ ps) = false
starts_with (c ∷ cs) (p ∷ ps) = c == p && starts_with cs ps

-- `str::contains` of a text.
contains : Chars → Bytes → Bool
unfolding starts_with
contains [] p = starts_with [] p
contains (c ∷ cs) p = starts_with (c ∷ cs) p || contains cs p

-- `split(|c| !c.is_ascii_alphanumeric())`: the tokens after the current one, which `token` begins.
split_from : Chars → Chars → List Chars
split_from token [] = token ∷ []
split_from token (c ∷ cs) = elim (is_ascii_alphanumeric c) [
  | true ↦ split_from (token ++ c ∷ []) cs
  | false ↦ token ∷ split_from [] cs
]

is_placeholder_word : Chars → Bool
is_placeholder_word token = not (eq_bytes token []) && any (eq_bytes token) placeholder_words

pub is_pathlike : Chars → Bool
unfolding starts_with contains
is_pathlike v =
    starts_with v (ascii "/")
    || (starts_with v (ascii "~")
        || (starts_with v (ascii "./")
            || (starts_with v (ascii "../")
                || (contains v (ascii "/")
                    && not (any (λ c. is_ascii_digit c || is_ascii_uppercase c) v)))))

-- SCREAMING_SNAKE with an underscore.
is_env_name : Chars → Bool
unfolding contains
is_env_name v =
    contains v (ascii "_") && all (λ c. is_ascii_uppercase c || (is_ascii_digit c || c == b'_')) v

unfoldable pub looks_like_secret_value : Chars → Bool
unfolding trim_matches is_pathlike is_env_name to_ascii_lowercase contains split_from
    is_placeholder_word
looks_like_secret_value value =
    let trimmed = trim_matches value in
    let lower = to_ascii_lowercase trimmed in
    if ltb (length trimmed) 8
    then false
    else if is_pathlike trimmed
    then false
    else if is_env_name trimmed
    then false
    else if any (contains lower) strong_placeholder_fragments
    then false
    else if any is_placeholder_word (split_from [] lower)
    then false
    else any (λ c. is_ascii_digit c || (is_ascii_uppercase c || (c == b'+' || c == b'='))) trimmed
