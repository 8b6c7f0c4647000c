-- ===== src/Redaction/Detector/Laws.antt =====
-- What detect_secrets reports.
use clipy_si_core.Common.{
  All-append, ℕ, ◌≤◌, ◌≡◌, ◌↔◌, refl, ap, ◌∙◌, Bool, false, not, if◌then◌else◌, List, [], ◌∷◌,
  arith, length, map, keep, All,
}
use clipy_si_core.Extern.Float.{FloatOps}
use clipy_si_core.Extern.Regex.{RegexOps}
use clipy_si_core.Redaction.{RawMatch, SecretMatch, MaskConfig}
use clipy_si_core.Redaction.Detector.{
  boundaries, with_offsets, merge_non_overlapping, byte_to_char_offsets, collect_raw,
  detect_secrets, is_secret, is_empty,
}
use clipy_si_core.Redaction.Detector.Merge.{
  Disjoint, merge_non_overlapping-All, merge_non_overlapping-Disjoint, merge_non_overlapping-nil,
}
use clipy_si_core.Redaction.Detector.Offsets.{
  Ascending, char_offset, char_offset_more, char_offset_all, byte_to_char_offsets_lem,
}
use clipy_si_core.Redaction.Entropy.{high_entropy_matches}
use clipy_si_core.Redaction.Entropy.Laws.{weaken-All, high_entropy_matches-IsFresh}
use clipy_si_core.Redaction.Patterns.Laws.{
  IsInside, provider_matches-IsInside, gated_literal_matches-IsInside, url_matches-IsInside,
  kv_matches-IsInside, user_matches-IsInside,
}
use clipy_si_core.Text.{Chars, as_bytes}

-- A match in the offsets of scalars.
abbrev pub converted : Chars → RawMatch → SecretMatch
converted text m = record {
  kind = m.kind;
  start = char_offset text m.start;
  end = char_offset text m.end;
  confidence = m.confidence;
}

boundaries-Ascending :
    (lo n : ℕ) (ms : List RawMatch)
    → Disjoint lo ms
    → All (IsInside n) ms
    → Ascending lo (boundaries ms)
boundaries-Ascending lo n [] d h = d
boundaries-Ascending lo n (m ∷ ms) d h = (d.0, (h.0.0, boundaries-Ascending m.end n ms d.1 h.1))

with_offsets-map :
    (text : Chars) (ms : List RawMatch)
    → with_offsets ms (map (char_offset text) (boundaries ms)) ≡ map (converted text) ms
unfolding with_offsets
with_offsets-map text [] = refl
with_offsets-map text (m ∷ ms) = ap (◌∷◌ (converted text m)) (with_offsets-map text ms)

pub keep-All :
    (P : RawMatch → Type 0) (p : RawMatch → Bool) (ms : List RawMatch)
    → All P ms
    → All P (keep p ms)
keep-All P p [] h = h
keep-All P p (m ∷ ms) h = ground (arith, keep-All P p ms h.1)

-- The reported matches follow each other inside a text of `n` scalars.
abbrev pub Follows : ℕ → ℕ → List SecretMatch → Type 0
Follows lo n [] = Unit
Follows lo n (m ∷ ms) = (lo ≤ m.start) × (m.start ≤ m.end) × (m.end ≤ n) × Follows m.end n ms

converted-Follows :
    (text : Chars) (lo n : ℕ) (ms : List RawMatch)
    → Disjoint lo ms
    → All (IsInside n) ms
    → Follows (char_offset text lo) (length text) (map (converted text) ms)
converted-Follows text lo n [] d h = d
converted-Follows text lo n (m ∷ ms) d h = (
  char_offset_more text lo m.start d.0,
  char_offset_more text m.start m.end h.0.0,
  char_offset_all text m.end,
  converted-Follows text m.end n ms d.1 h.1,
)

from_zero : (lo n : ℕ) (ms : List SecretMatch) → Follows lo n ms → Follows 0 n ms
from_zero lo n [] h = h
from_zero lo n (m ∷ ms) h = (omega arith, h.1, h.2, h.3)

map-nil : (text : Chars) (ms : List RawMatch) → map (converted text) ms ≡ [] → ms ≡ []
map-nil text [] h = refl
map-nil text (m ∷ ms) h = cc

module _ {Regex F : Type 0} (regex : RegexOps Regex) (float : FloatOps F) (text : Chars)
    (config : MaskConfig F) where
  fresh :
      (occupied : List (ℕ × ℕ))
      → All (IsInside (length (as_bytes text))) (high_entropy_matches float text config occupied)
  fresh occupied =
      weaken-All (high_entropy_matches float text config occupied)
        (λ m h. (omega (arith, h.0), h.1)) (high_entropy_matches-IsFresh float text config occupied)

  pub collect_raw-IsInside :
      All (IsInside (length (as_bytes text))) (collect_raw regex float text config)
  unfolding collect_raw
  collect_raw-IsInside =
      search
        (
          All-append, keep-All, provider_matches-IsInside, gated_literal_matches-IsInside,
          url_matches-IsInside, kv_matches-IsInside, user_matches-IsInside, fresh,
        )
        depth 20

  kept : List RawMatch
  kept = merge_non_overlapping (collect_raw regex float text config)

  kept-IsInside : All (IsInside (length (as_bytes text))) kept
  unfolding kept
  kept-IsInside =
      merge_non_overlapping-All (IsInside (length (as_bytes text)))
        (collect_raw regex float text config) collect_raw-IsInside

  kept-Disjoint : Disjoint 0 kept
  unfolding kept
  kept-Disjoint = merge_non_overlapping-Disjoint (collect_raw regex float text config)

  -- The reported matches are the kept raw matches, each byte offset replaced by the number of
  -- scalars of the text that begin before it, saturated at the largest `u32`.
  pub detect_secrets_lem :
      detect_secrets regex float text config
      ≡ map (converted text) (merge_non_overlapping (collect_raw regex float text config))
  unfolding detect_secrets kept
  detect_secrets_lem = or_empty kept ∙ offsets
    where
      offsets :
          with_offsets kept (byte_to_char_offsets text (boundaries kept))
          ≡ map (converted text) kept
      offsets =
          ap (with_offsets kept) (
            byte_to_char_offsets_lem text (boundaries kept)
              (boundaries-Ascending 0 (length (as_bytes text)) kept kept-Disjoint kept-IsInside))
          ∙ with_offsets-map text kept

      or_empty :
          (ms : List RawMatch)
          → (if is_empty ms
              then []
              else with_offsets ms (byte_to_char_offsets text (boundaries ms)))
            ≡ with_offsets ms (byte_to_char_offsets text (boundaries ms))
      or_empty [] = refl
      or_empty (m ∷ ms) = refl

  -- The reported matches follow each other: each starts at or after the end of the one before, ends
  -- at or after its start, and ends within the scalars of the text.
  pub detect_secrets-Follows : Follows 0 (length text) (detect_secrets regex float text config)
  unfolding kept
  detect_secrets-Follows = rw detect_secrets_lem (
      from_zero (char_offset text 0) (length text) (map (converted text) kept)
        (converted-Follows text 0 (length (as_bytes text)) kept kept-Disjoint kept-IsInside))

  -- `is_secret` is false exactly if `detect_secrets` reports nothing.
  pub is_secret_iff :
      (is_secret regex float text config ≡ false) ↔ (detect_secrets regex float text config ≡ [])
  unfolding is_secret merge_non_overlapping
  is_secret_iff = rw detect_secrets_lem (empty_iff (collect_raw regex float text config))
    where
      merged : map (converted text) (merge_non_overlapping []) ≡ []
      merged = refl

      empty_iff :
          (raws : List RawMatch)
          → (not (is_empty raws) ≡ false) ↔ (map (converted text) (merge_non_overlapping raws) ≡ [])
      empty_iff [] = ((λ h. merged), λ h. refl)
      empty_iff (m ∷ ms) = (
        (λ h. cc),
        λ h.
            let e =
              merge_non_overlapping-nil (m ∷ ms)
                (map-nil text (merge_non_overlapping (m ∷ ms)) h) in
            cc,
      )
