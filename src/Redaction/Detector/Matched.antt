-- ===== src/Redaction/Detector/Matched.antt =====
-- What detect_secrets reports is what was matched.
use clipy_si_core.Common.{
  All-append, ℕ, ◌-◌, ◌≤◌, ◌<◌, ◌≡◌, refl, sym, ap₂, subst, ◌∙◌, inl, inr, List, [], ◌∷◌, arith,
  length, map, take, drop, All,
}
use clipy_si_core.Extern.Float.{FloatOps}
use clipy_si_core.Extern.Regex.{RegexOps, IsAligned}
use clipy_si_core.Record.Words.{u32_mod}
use clipy_si_core.Redaction.{RawMatch, SecretMatch, MaskConfig}
use clipy_si_core.Redaction.Detector.{merge_non_overlapping, collect_raw, detect_secrets}
use clipy_si_core.Redaction.Detector.Laws.{
  converted, keep-All, collect_raw-IsInside, detect_secrets_lem,
}
use clipy_si_core.Redaction.Detector.Merge.{merge_non_overlapping-All}
use clipy_si_core.Redaction.Detector.Offsets.{begun, begun_all, char_offset}
use clipy_si_core.Redaction.Detector.Slices.{slice_lem, IsMaximal-IsBoundary}
use clipy_si_core.Redaction.Entropy.{high_entropy_matches}
use clipy_si_core.Redaction.Entropy.Runs.{Has, high_entropy_matches_iff}
use clipy_si_core.Redaction.Patterns.{
  provider_matches, gated_literal_matches, url_matches, kv_matches, user_matches,
}
use clipy_si_core.Redaction.Patterns.Laws.{IsInside}
use clipy_si_core.Redaction.Patterns.Offsets.{
  At, provider_matches-At, gated_literal_matches-At, url_matches-At, kv_matches-At, user_matches-At,
}
use clipy_si_core.Text.{Chars, as_bytes, IsBoundary}

-- What holds of each member holds of all.
All-Has :
    (P : RawMatch → Type 0) (ms : List RawMatch) → ((m : RawMatch) → Has m ms → P m) → All P ms
All-Has P [] h = tt
All-Has P (m ∷ ms) h = (h m (inl refl), All-Has P ms (λ x k. h x (inr k)))

Has-All : (P : RawMatch → Type 0) (ms : List RawMatch) (m : RawMatch) → All P ms → Has m ms → P m
Has-All P [] m a k = absurd k
Has-All P (x ∷ ms) m a (inl e) = subst P (sym e) a.0
Has-All P (x ∷ ms) m a (inr k) = Has-All P ms m a.1 k

All-map :
    (P : SecretMatch → Type 0) (f : RawMatch → SecretMatch) (ms : List RawMatch)
    → All (λ m. P (f m)) ms
    → All P (map f ms)
All-map P f [] a = tt
All-map P f (m ∷ ms) a = (a.0, All-map P f ms a.1)

-- Offsets between scalars.
abbrev IsOn : Chars → ℕ → ℕ → Type 0
IsOn text s e = IsBoundary text s × IsBoundary text e

-- A report of a raw match: its kind and confidence, and a span of scalars that are encoded by the
-- bytes that were matched.
abbrev pub Reports : Chars → SecretMatch → RawMatch → Type 0
Reports text m r =
    (m.kind ≡ r.kind)
    × (m.confidence ≡ r.confidence)
    × (as_bytes (take (m.end - m.start) (drop m.start text))
        ≡ take (r.end - r.start) (drop r.start (as_bytes text)))

module _ {Regex F : Type 0} (regex : RegexOps Regex) (float : FloatOps F) (text : Chars)
    (config : MaskConfig F) where
  entropy-IsOn :
      (occupied : List (ℕ × ℕ))
      → All (At (IsOn text)) (high_entropy_matches float text config occupied)
  entropy-IsOn occupied =
      let (iff, each) = high_entropy_matches_iff float text config occupied in
      All-Has (At (IsOn text)) (high_entropy_matches float text config occupied) (λ m k.
        let e = Has-All _ _ m each k in
        IsMaximal-IsBoundary text m.start m.end
          ((iff m.start m.end).0
            (subst (λ x. Has x (high_entropy_matches float text config occupied)) e k)).0)

  module _ (aligned : IsAligned regex) where
    provider-IsOn : All (At (IsOn text)) (provider_matches regex text)
    provider-IsOn =
        provider_matches-At regex text (IsOn text) (λ re. aligned.find_iter-Aligned re text)
          (λ re. aligned.captures_iter-Aligned re text)

    gated-IsOn : All (At (IsOn text)) (gated_literal_matches regex text)
    gated-IsOn =
        gated_literal_matches-At regex text (IsOn text) (λ re. aligned.find_iter-Aligned re text)
          (λ re. aligned.captures_iter-Aligned re text)

    url-IsOn : All (At (IsOn text)) (url_matches regex text)
    url-IsOn =
        url_matches-At regex text (IsOn text) (λ re. aligned.find_iter-Aligned re text)
          (λ re. aligned.captures_iter-Aligned re text)

    kv-IsOn : All (At (IsOn text)) (kv_matches regex text)
    kv-IsOn =
        kv_matches-At regex text (IsOn text) (λ re. aligned.find_iter-Aligned re text)
          (λ re. aligned.captures_iter-Aligned re text)

    user-IsOn : All (At (IsOn text)) (user_matches regex text config)
    user-IsOn =
        user_matches-At regex text (IsOn text) (λ re. aligned.find_iter-Aligned re text)
          (λ re. aligned.captures_iter-Aligned re text) config

    collect_raw-IsOn : All (At (IsOn text)) (collect_raw regex float text config)
    unfolding collect_raw
    collect_raw-IsOn =
        search
          (
            All-append, keep-All, provider-IsOn, gated-IsOn, url-IsOn, kv-IsOn, user-IsOn,
            entropy-IsOn,
          )
          depth 20

    converted-Reports :
        (r : RawMatch)
        → length text < u32_mod
        → At (IsOn text) r
        → r.start ≤ r.end
        → Reports text (converted text r) r
    converted-Reports r small on le = (
      refl,
      refl,
      ap₂ (λ (i j : ℕ). as_bytes (take (j - i) (drop i text))) (exact r.start) (exact r.end)
          ∙ slice_lem text r.start r.end on.0 on.1 le,
    )
      where
        exact : (t : ℕ) → char_offset text t ≡ begun t 0 text
        exact t = ground (arith, begun_all t 0 text)

    -- For an engine whose matches begin and end between scalars, and a text of less than 2^32
    -- scalars: each reported match is that of a raw match, of the same kind and confidence, and the
    -- scalars of the text from its start to its end are encoded by exactly the bytes that were
    -- matched.
    pub detect_secrets-Reports :
        length text < u32_mod
        → All
            (λ m. (r : RawMatch) × Has r (collect_raw regex float text config) × Reports text m r)
            (detect_secrets regex float text config)
    detect_secrets-Reports small =
        subst (All Reported) (sym (detect_secrets_lem regex float text config)) (
          All-map Reported (converted text) (merge_non_overlapping raws) (
            merge_non_overlapping-All (λ r. Reported (converted text r)) raws
              (All-Has (λ r. Reported (converted text r)) raws
                (λ r k. (
                  r,
                  k,
                  converted-Reports r small (Has-All (At (IsOn text)) raws r collect_raw-IsOn k)
                      (Has-All (IsInside (length (as_bytes text))) raws r
                        (collect_raw-IsInside regex float text config) k).0,
                )))))
      where
        raws : List RawMatch
        raws = collect_raw regex float text config

        Reported : SecretMatch → Type 0
        Reported m = (r : RawMatch) × Has r raws × Reports text m r
