-- ===== src/Examples/Masking.antt =====
-- The detector and the masks, under expressions that match the whole of every text.
use clipy_si_core.Common.{
  ℕ, ◌≡◌, ◌↔◌, ◌&&◌, refl, true, false, some, List, [], ◌∷◌, arith, length, get_elem?, All, sym,
  append-nil, if◌then◌else◌,
}
use clipy_si_core.Extern.Float.{FloatOps}
use clipy_si_core.Extern.Regex.{RegexOps, IsAligned}
use clipy_si_core.Ffi.Redaction.{to_config, from_config, from_match}
use clipy_si_core.Ffi.Redaction
use clipy_si_core.Ffi.Redaction.Laws.{SameMatch, Pointwise, both_prefix2, evaluate_ffi}
use clipy_si_core.Redaction.{
  jwt, user_defined, high, medium, RawMatch, MaskConfig, prefix2, default_config,
}
use clipy_si_core.Redaction.Detector.{merge_non_overlapping, collect_raw, detect_secrets, is_secret}
use clipy_si_core.Redaction.Detector.Laws.{Follows, detect_secrets-Follows}
use clipy_si_core.Redaction.Detector.Matched.{Reports, detect_secrets-Reports}
use clipy_si_core.Redaction.Detector.Slices.{zero-IsBoundary}
use clipy_si_core.Redaction.Entropy.Runs.{Has}
use clipy_si_core.Redaction.Detector.Merge.{Some, Disjoint, Covered, merge_non_overlapping_lem}
use clipy_si_core.Redaction.Mask.{mask}
use clipy_si_core.Redaction.Mask.Laws.{masked_at, mask-at}
use clipy_si_core.Redaction.Patterns.Gate.{looks_like_secret_value}
use clipy_si_core.Text.{Chars, ascii, as_bytes, IsBoundary}

abbrev pub toy_regex : RegexOps ℕ
toy_regex = record {
  new = λ pattern. some 0;
  compiled = λ pattern. 0;
  find_iter = λ re text. (0, length (as_bytes text)) ∷ [];
  captures_iter = λ re text. [];
  find_iter-Inside = λ re text. ground arith;
  captures_iter-Inside = λ re text. ground arith;
}

abbrev pub toy_float : FloatOps ℕ
toy_float = record {
  decimal = λ m d. m;
  of_nat = λ n. n;
  neg = λ x. x;
  mul = λ x y. y;
  div = λ x y. x;
  log2 = λ x. x;
  min = λ x y. x;
  sum = λ xs. 0;
  lt = λ x y. false;
  ge = λ x y. true;
}

abbrev pub text : Chars
text = b'a' ∷ 0x20ac ∷ b'B' ∷ []

abbrev pub config : MaskConfig ℕ
config = record (default_config toy_float) { style = prefix2; min_entropy_len = 1 }

gate_takes : looks_like_secret_value (ascii "hunter2NONEzzz") ≡ true
unfolding looks_like_secret_value
gate_takes = refl

gate_refuses : looks_like_secret_value (ascii "'changeme123'") ≡ false
unfolding looks_like_secret_value
gate_refuses = refl

gate_refuses_path : looks_like_secret_value (ascii "etc/ssl/server.key") ≡ false
unfolding looks_like_secret_value
gate_refuses_path = refl

abbrev pub at : ℕ → ℕ → RawMatch
at s e = record { start = s; end = e; kind = jwt; confidence = high }

abbrev pub weak : ℕ → ℕ → RawMatch
weak s e = record { start = s; end = e; kind = user_defined; confidence = medium }

abbrev raws : List RawMatch
raws = at 5 9 ∷ weak 0 6 ∷ at 0 4 ∷ at 8 12 ∷ []

merged : merge_non_overlapping raws ≡ at 0 4 ∷ at 5 9 ∷ []
unfolding merge_non_overlapping
merged = refl

merge_non_overlapping_lem_example :
    All (λ k. Some (λ r. k ≡ r) raws) (merge_non_overlapping raws)
    × Disjoint 0 (merge_non_overlapping raws)
    × All (Covered (merge_non_overlapping raws)) raws
merge_non_overlapping_lem_example = merge_non_overlapping_lem raws

detect_secrets-Follows_example : Follows 0 3 (detect_secrets toy_regex toy_float text config)
detect_secrets-Follows_example = detect_secrets-Follows toy_regex toy_float text config

mask-at_example : get_elem? (mask toy_regex toy_float text config) 2 ≡ (
    if config.enabled && is_secret toy_regex toy_float text config
    then masked_at config.style text 2
    else get_elem? text 2)
mask-at_example = mask-at toy_regex toy_float text config 2

-- With a rule of the user.
abbrev ruled : MaskConfig ℕ
ruled = record config {
  user_rules = record { name = ascii "pin"; regex = ascii "[0-9]"; kind_label = ascii "Pin" } ∷ [];
}

evaluate_ffi_example :
    Pointwise SameMatch
      (Redaction.detect_secrets toy_regex toy_float text (from_config ruled))
      (detect_secrets toy_regex toy_float text ruled)
    × (Redaction.is_secret toy_regex toy_float text (from_config ruled)
        ≡ is_secret toy_regex toy_float text ruled)
    × (Redaction.mask toy_regex toy_float text (from_config ruled)
        ≡ mask toy_regex toy_float text ruled)
    × (Redaction.evaluate toy_regex toy_float text (from_config ruled) ≡ record {
      is_secret = is_secret toy_regex toy_float text ruled;
      display = mask toy_regex toy_float text ruled;
    })
    × ((Redaction.is_secret toy_regex toy_float text (from_config ruled) ≡ false)
        ↔ (Redaction.detect_secrets toy_regex toy_float text (from_config ruled) ≡ []))
evaluate_ffi_example =
    evaluate_ffi toy_regex toy_float text (from_config ruled) ruled
      (refl, both_prefix2, refl, refl, ((refl, refl, refl), tt))

end-IsBoundary : (t : Chars) → IsBoundary t (length (as_bytes t))
end-IsBoundary t = (t, [], sym (append-nil t), refl)

pub toy-IsAligned : IsAligned toy_regex
toy-IsAligned = record {
  find_iter-Aligned = λ re t. ((zero-IsBoundary t, end-IsBoundary t), tt);
  captures_iter-Aligned = λ re t. tt;
}

detect_secrets-Reports_example :
    All
      (λ m. (r : RawMatch) × Has r (collect_raw toy_regex toy_float text config) × Reports text m r)
      (detect_secrets toy_regex toy_float text config)
detect_secrets-Reports_example =
    detect_secrets-Reports toy_regex toy_float text config toy-IsAligned (omega arith)
