-- ===== src/Redaction/Entropy/Laws.antt =====
-- The high-entropy matches: where they lie.
use clipy_si_core.Common.{
  All-append, ℕ, zero, suc, ◌+◌, ◌≤◌, ◌<◌, ◌≡◌, refl, inl, inr, Bool, true, false, Bool-cases,
  if◌then◌else◌, not, ◌&&◌, List, [], ◌∷◌, arith, length, take, drop, All, length-drop,
}
use clipy_si_core.Extern.Float.{FloatOps}
use clipy_si_core.Redaction.{RawMatch, MaskConfig}
use clipy_si_core.Redaction.Entropy.{
  is_token_byte, overlaps_any, run_length, candidate, scan, high_entropy_matches, qualifies,
}
use clipy_si_core.Text.{Bytes, Chars, as_bytes}

module _ {F : Type 0} (float : FloatOps F) (config : MaskConfig F) (occupied : List (ℕ × ℕ)) where
  -- A run ends inside the bytes.
  run_length_bound : (bs : Bytes) → run_length float bs ≤ length bs
  unfolding run_length
  run_length_bound [] = omega arith
  run_length_bound (b ∷ bs) = ground (arith, run_length_bound bs)

  abbrev IsRun : ℕ → ℕ → RawMatch → Type 0
  IsRun lo hi m =
      (lo ≤ m.start)
      × (m.start < m.end)
      × (m.end ≤ hi)
      × (overlaps_any m.start m.end occupied ≡ false)

  raise :
      (lo lo' hi : ℕ) (ms : List RawMatch) → lo ≤ lo' → All (IsRun lo' hi) ms → All (IsRun lo hi) ms
  raise lo lo' hi [] h a = a
  raise lo lo' hi (m ∷ ms) h a =
      ((omega (arith, h, a.0.0), a.0.1, a.0.2, a.0.3), raise lo lo' hi ms h a.1)

  one-IsRun :
      (lo hi : ℕ) (m : RawMatch) (q o : Bool)
      → lo ≤ m.start
      → m.start < m.end
      → m.end ≤ hi
      → overlaps_any m.start m.end occupied ≡ o
      → All (IsRun lo hi) (if q && not o then m ∷ [] else [])
  one-IsRun lo hi m true false h k l e = ((h, k, l, e), ground arith)
  one-IsRun lo hi m true true h k l e = ground arith
  one-IsRun lo hi m false o h k l e = ground arith

  candidate-IsRun :
      (lo hi start end : ℕ) (run : Bytes)
      → lo ≤ start
      → start < end
      → end ≤ hi
      → All (IsRun lo hi) (candidate float config occupied start end run)
  unfolding candidate
  candidate-IsRun lo hi start end run h k l =
      one-IsRun lo hi _ (qualifies float config run) (overlaps_any start end occupied) h k l refl

  scan-IsRun :
      (fuel i hi : ℕ) (bs : Bytes)
      → i + length bs ≤ hi
      → All (IsRun i hi) (scan float config occupied fuel i bs)
  unfolding scan
  scan-IsRun zero i hi bs h = ground arith
  scan-IsRun (suc fuel) i hi [] h = ground arith
  scan-IsRun (suc fuel) i hi (b ∷ bs) h = elim (Bool-cases (is_token_byte b)) [
    | inl e ↦
        rw (e, All, scan)
          (All-append (IsRun i hi)
            (candidate float config occupied i (i + suc (run_length float bs))
              (take (suc (run_length float bs)) (b ∷ bs)))
            (scan float config occupied fuel (i + suc (run_length float bs))
              (drop (run_length float bs) bs))
            (candidate-IsRun i hi i (i + suc (run_length float bs))
              (take (suc (run_length float bs)) (b ∷ bs)) (omega arith) (omega arith)
              (omega (arith, h, run_length_bound bs)))
            (raise i (i + suc (run_length float bs)) hi _ (omega arith) (
              scan-IsRun fuel (i + suc (run_length float bs)) hi (drop (run_length float bs) bs)
                (omega (arith, h, run_length_bound bs, length-drop (run_length float bs) bs)))))
    | inr e ↦
        rw (e, All, scan)
          (raise i (i + 1) hi (scan float config occupied fuel (i + 1) bs) (omega arith)
            (scan-IsRun fuel (i + 1) hi bs (omega (arith, h))))
  ]

-- A match of the entropy test is not empty, lies inside the text, and overlaps no span that another
-- source had claimed.
abbrev pub IsFresh : ℕ → List (ℕ × ℕ) → RawMatch → Type 0
IsFresh n occupied m =
    (m.start < m.end) × (m.end ≤ n) × (overlaps_any m.start m.end occupied ≡ false)

-- A predicate passes on along an implication.
pub weaken-All {ℓ κ μ} :
    {A : Type ℓ} {P : A → Type κ} {Q : A → Type μ} (xs : List A)
    → ((x : A) → P x → Q x)
    → All P xs
    → All Q xs
weaken-All [] f h = ground arith
weaken-All (x ∷ xs) f h = (f x h.0, weaken-All xs f h.1)

module _ {F : Type 0} (float : FloatOps F) where
  -- A match of the entropy test is not empty, ends within the bytes of the text, and overlaps none
  -- of the occupied spans.
  pub high_entropy_matches-IsFresh :
      (text : Chars) (config : MaskConfig F) (occupied : List (ℕ × ℕ))
      → All
          (IsFresh (length (as_bytes text)) occupied)
          (high_entropy_matches float text config occupied)
  unfolding high_entropy_matches
  high_entropy_matches-IsFresh text config occupied =
      weaken-All (scan float config occupied (length (as_bytes text)) 0 (as_bytes text))
        (λ m h. (h.1, h.2, h.3))
        (scan-IsRun float config occupied (length (as_bytes text)) 0 (length (as_bytes text))
          (as_bytes text) (omega arith))
