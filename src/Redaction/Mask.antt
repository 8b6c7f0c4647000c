-- ===== src/Redaction/Mask.antt =====
-- crates/clipy-si-core/src/redaction/mask.rs.
pub mod Laws
use clipy_si_core.Common.{
  ℕ, ◌-◌, Bool, not, ◌||◌, List, ◌++◌, length, take, drop, replicate, leb, if◌then◌else◌,
}
use clipy_si_core.Extern.Float.{FloatOps}
use clipy_si_core.Extern.Regex.{RegexOps}
use clipy_si_core.Redaction.{MaskStyle, full, prefix2, suffix4, MaskConfig, MaskEvaluation}
use clipy_si_core.Redaction.Detector.{is_secret}
use clipy_si_core.Text.{Chars}

abbrev pub bullet : ℕ
bullet = 0x2022

abbrev pub bullets : ℕ → Chars
bullets n = replicate n bullet

abbrev keep_prefix : Chars → ℕ → ℕ → Chars
keep_prefix text keep len =
    if leb len keep then bullets len else take keep text ++ bullets (len - keep)

abbrev keep_suffix : Chars → ℕ → ℕ → Chars
keep_suffix text keep len =
    if leb len keep then bullets len else bullets (len - keep) ++ drop (len - keep) text

-- `match config.style`.
unfoldable pub styled : MaskStyle → Chars → Chars
styled full text = bullets (length text)
styled prefix2 text = keep_prefix text 2 (length text)
styled suffix4 text = keep_suffix text 4 (length text)

module _ {Regex F : Type 0} (regex : RegexOps Regex) (float : FloatOps F) where
  unfoldable pub evaluate : Chars → MaskConfig F → MaskEvaluation
  unfolding styled
  evaluate text config =
      let secret = is_secret regex float text config in
      record {
        is_secret = secret;
        display = if not config.enabled || not secret then text else styled config.style text;
      }

  unfoldable pub mask : Chars → MaskConfig F → Chars
  unfolding evaluate
  mask text config =
      if not config.enabled then text else MaskEvaluation.display (evaluate text config)
