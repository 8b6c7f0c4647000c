-- ===== src/Redaction/Entropy/Congruence.antt =====
-- What of its configuration and of the occupied spans the entropy test looks at.
use clipy_si_core.Common.{
  ℕ, zero, suc, ◌+◌, ◌≡◌, refl, ap₂, inl, inr, Bool-cases, List, [], ◌∷◌, ◌++◌, length, take, drop,
}
use clipy_si_core.Extern.Float.{FloatOps}
use clipy_si_core.Redaction.{MaskConfig, UserRule}
use clipy_si_core.Redaction.Entropy.{
  overlaps_any, is_token_byte, run_length, candidate, scan, high_entropy_matches, qualifies,
}
use clipy_si_core.Text.{Bytes, Chars, as_bytes}

module _ {F : Type 0} (float : FloatOps F) where
  qualifies-cong :
      (c : MaskConfig F) (rules : List UserRule) (run : Bytes)
      → qualifies float c run ≡ qualifies float (record c { user_rules = rules }) run
  unfolding qualifies
  qualifies-cong c rules run = refl

  module _ (c : MaskConfig F) (rules : List UserRule) (o o' : List (ℕ × ℕ))
      (same_spans : (s e : ℕ) → overlaps_any s e o ≡ overlaps_any s e o') where
    abbrev other : MaskConfig F
    other = record c { user_rules = rules }

    candidate-cong :
        (s e : ℕ) (run : Bytes) → candidate float c o s e run ≡ candidate float other o' s e run
    unfolding candidate
    candidate-cong s e run = rw (qualifies-cong c rules run, same_spans s e) refl

    scan-cong : (fuel i : ℕ) (bs : Bytes) → scan float c o fuel i bs ≡ scan float other o' fuel i bs
    unfolding scan
    scan-cong zero i bs = refl
    scan-cong (suc fuel) i [] = refl
    scan-cong (suc fuel) i (b ∷ bs) = elim (Bool-cases (is_token_byte b)) [
      | inl t ↦
          let n = suc (run_length float bs) in
          rw (t, scan)
            (ap₂ (◌++◌) (candidate-cong i (i + n) (take n (b ∷ bs)))
              (scan-cong fuel (i + n) (drop n (b ∷ bs))))
      | inr t ↦ rw (t, scan) (scan-cong fuel (i + 1) bs)
    ]

    -- The entropy test depends on neither the user's rules nor the order of the occupied spans.
    pub high_entropy_matches-cong :
        (text : Chars)
        → high_entropy_matches float text c o ≡ high_entropy_matches float text other o'
    unfolding high_entropy_matches
    high_entropy_matches-cong text = scan-cong (length (as_bytes text)) 0 (as_bytes text)
