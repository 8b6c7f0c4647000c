-- ===== src/Redaction/Detector.antt =====
-- crates/clipy-si-core/src/redaction/detector.rs. The sort of the standard library is the insertion
-- sort by the same comparison: any stable sort returns the same list.
pub mod Offsets
pub mod Merge
pub mod Unordered
pub mod Laws
pub mod Slices
pub mod Matched
pub mod Rules
use clipy_si_core.Common.{
  ℕ, zero, suc, ◌+◌, ◌-◌, compare, Ordering, Bool, true, false, not, ◌||◌, List, [], ◌∷◌, ◌++◌, map,
  length, ltb, leb, keep, if◌then◌else◌,
}
use clipy_si_core.Common.Linear.{◌then◌}
use clipy_si_core.Extern.Float.{FloatOps}
use clipy_si_core.Extern.Regex.{RegexOps}
use clipy_si_core.Record.Words.{u32_mod}
use clipy_si_core.Redaction.{Confidence, high, medium, RawMatch, SecretMatch, MaskConfig}
use clipy_si_core.Redaction.Entropy.{overlaps_any, high_entropy_matches}
use clipy_si_core.Redaction.Patterns.{
  provider_matches, gated_literal_matches, url_matches, kv_matches, user_matches, data_uri_spans,
}
use clipy_si_core.Text.{Chars, len_utf8}

abbrev pub conf_rank : Confidence → ℕ
conf_rank high = 1
conf_rank medium = 0

-- The comparison of `merge_non_overlapping`.
abbrev pub order : RawMatch → RawMatch → Ordering
order a b =
    compare a.start b.start
    then compare (conf_rank b.confidence) (conf_rank a.confidence)
    then compare (b.end - b.start) (a.end - a.start)

pub insert : RawMatch → List RawMatch → List RawMatch
insert m [] = m ∷ []
insert m (x ∷ xs) = elim (order m x) [ Ordering.gt ↦ x ∷ insert m xs | _ ↦ m ∷ x ∷ xs ]

pub sort_by_order : List RawMatch → List RawMatch
unfolding insert
sort_by_order [] = []
sort_by_order (m ∷ ms) = insert m (sort_by_order ms)

-- The loop over the sorted matches: whether `kept` is empty, and the end of the last kept one.
pub keep_from : Bool → ℕ → List RawMatch → List RawMatch
keep_from first last_end [] = []
keep_from first last_end (m ∷ ms) = elim (first || leb last_end m.start) [
  | true ↦ m ∷ keep_from false m.end ms
  | false ↦ keep_from first last_end ms
]

unfoldable pub merge_non_overlapping : List RawMatch → List RawMatch
unfolding sort_by_order keep_from
merge_non_overlapping raws = keep_from true 0 (sort_by_order raws)

abbrev pub spans : List RawMatch → List (ℕ × ℕ)
spans ms = map (λ m. (RawMatch.start m, RawMatch.end m)) ms

-- The walk over `char_indices`: the scalars counted, the offset of the next one, and those left.
pub record Walk : Type 0 where
  pub char_idx : ℕ
  pub byte : ℕ
  pub left : Chars

-- The inner loop, up to the first scalar at `target` or later.
pub advance : ℕ → ℕ → ℕ → Chars → Walk
advance target char_idx byte [] = record { char_idx = char_idx; byte = byte; left = [] }
advance target char_idx byte (c ∷ cs) = elim (leb target byte) [
  | true ↦ record { char_idx = char_idx; byte = byte; left = c ∷ cs }
  | false ↦ advance target (char_idx + 1) (byte + len_utf8 c) cs
]

-- `u32::try_from(_).unwrap_or(u32::MAX)`.
abbrev pub saturate : ℕ → ℕ
saturate n = if ltb n u32_mod then n else 0xffff_ffff

pub offsets_from : Walk → List ℕ → List ℕ
unfolding advance
offsets_from w [] = []
offsets_from w (target ∷ targets) =
    let w = advance target w.char_idx w.byte w.left in saturate w.char_idx ∷ offsets_from w targets

unfoldable pub byte_to_char_offsets : Chars → List ℕ → List ℕ
unfolding offsets_from
byte_to_char_offsets text sorted_bytes =
    offsets_from (record { char_idx = 0; byte = 0; left = text }) sorted_bytes

abbrev pub boundaries : List RawMatch → List ℕ
boundaries [] = []
boundaries (m ∷ ms) = m.start ∷ m.end ∷ boundaries ms

-- The kept matches with their two offsets each.
pub with_offsets : List RawMatch → List ℕ → List SecretMatch
with_offsets (m ∷ ms) (s ∷ e ∷ chars) =
    (record { kind = m.kind; start = s; end = e; confidence = m.confidence })
    ∷ with_offsets ms chars
with_offsets (m ∷ ms) (s ∷ []) = []
with_offsets (m ∷ ms) [] = []
with_offsets [] chars = []

abbrev pub is_empty : List RawMatch → Bool
is_empty [] = true
is_empty (m ∷ ms) = false

module _ {Regex F : Type 0} (regex : RegexOps Regex) (float : FloatOps F) where
  unfoldable pub collect_raw : Chars → MaskConfig F → List RawMatch
  collect_raw text config =
      let urls = url_matches regex text in
      let kv =
        keep (λ m. not (overlaps_any (RawMatch.start m) (RawMatch.end m) (spans urls)))
          (kv_matches regex text) in
      let all =
        provider_matches regex text
        ++ gated_literal_matches regex text
        ++ urls
        ++ kv
        ++ user_matches regex text config in
      let occupied = spans all ++ data_uri_spans regex text in
      all ++ high_entropy_matches float text config occupied

  unfoldable pub detect_secrets : Chars → MaskConfig F → List SecretMatch
  unfolding with_offsets
  detect_secrets text config =
      let kept = merge_non_overlapping (collect_raw text config) in
      if is_empty kept then [] else with_offsets kept (byte_to_char_offsets text (boundaries kept))

  unfoldable pub is_secret : Chars → MaskConfig F → Bool
  is_secret text config = not (is_empty (collect_raw text config))
