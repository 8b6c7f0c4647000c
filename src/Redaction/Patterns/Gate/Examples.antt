-- ===== src/Redaction/Patterns/Gate/Examples.antt =====
-- A placeholder at the gate.
use clipy_si_core.Common.{◌≡◌, refl, false, [], ◌∷◌, ◌++◌}
use clipy_si_core.Redaction.Patterns.Gate.{
  looks_like_secret_value, trim_matches, trim_start, trim_end, to_ascii_lowercase,
}
use clipy_si_core.Redaction.Patterns.Gate.Laws.{looks_like_secret_value-placeholder}
use clipy_si_core.Text.{ascii}

looks_like_secret_value-placeholder_example :
    (looks_like_secret_value (ascii "'my-ChangeMe-123'") ≡ false)
    × (looks_like_secret_value (34 ∷ (ascii "'my-ChangeMe-123'" ++ (34 ∷ []))) ≡ false)
unfolding trim_matches trim_start trim_end to_ascii_lowercase
looks_like_secret_value-placeholder_example =
    looks_like_secret_value-placeholder (ascii "'my-ChangeMe-123'") (ascii "my-") (ascii "changeme")
      (ascii "-123") [] _ 34 34 refl refl refl refl
