-- ===== src/Redaction/Entropy/Runs.antt =====
-- The scan of high_entropy_matches, against the maximal runs of token bytes.
use clipy_si_core.Common.{
  ℕ, zero, suc, ◌+◌, ◌-◌, ◌≤◌, ◌<◌, ◌≡◌, ◌↔◌, refl, sym, ap, ap₂, subst, ◌∙◌, ◌⊎◌, inl, inr, Bool,
  true, false, Bool-cases, ltb, ltb→lt, not, ◌&&◌, if◌then◌else◌, List, [], ◌∷◌, ◌++◌, arith, All,
  All-append, length, take, drop, drop-drop, length-drop,
}
use clipy_si_core.Extern.Float.{FloatOps}
use clipy_si_core.Redaction.{RawMatch, MaskConfig, high_entropy_string, medium}
use clipy_si_core.Redaction.Entropy.{
  is_token_byte, overlaps_any, run_length, candidate, scan, high_entropy_matches, qualifies,
}
use clipy_si_core.Redaction.Entropy.Maximal.{
  token_at, token_at-drop, IsMaximal, same_end, begins_after, none_left,
}
use clipy_si_core.Text.{Bytes, Chars, as_bytes}

abbrev pub Has : RawMatch → List RawMatch → Type 0
Has m [] = ⊥
Has m (x ∷ xs) = (m ≡ x) ⊎ Has m xs

abbrev pub entropy_match : ℕ → ℕ → RawMatch
entropy_match s e = record { start = s; end = e; kind = high_entropy_string; confidence = medium }

Has-append : (m : RawMatch) (xs ys : List RawMatch) → Has m (xs ++ ys) ↔ (Has m xs ⊎ Has m ys)
Has-append m [] ys = ground arith
Has-append m (x ∷ xs) ys = ground (arith, Has-append m xs ys)

one-Has :
    (s e s' e' : ℕ) (q o : Bool)
    → Has (entropy_match s e) (if q && not o then entropy_match s' e' ∷ [] else [])
      ↔ ((s ≡ s') × (e ≡ e') × (q ≡ true) × (o ≡ false))
one-Has s e s' e' q o = ground arith

abbrev pub IsEntropy : RawMatch → Type 0
IsEntropy m = m ≡ entropy_match m.start m.end

one-IsEntropy : (s e : ℕ) (b : Bool) → All IsEntropy (if b then entropy_match s e ∷ [] else [])
one-IsEntropy s e b = ground arith

module _ {F : Type 0} (float : FloatOps F) (config : MaskConfig F) (occupied : List (ℕ × ℕ)) where
  run_tokens : (bs : Bytes) (k : ℕ) → k < run_length float bs → token_at bs k ≡ true
  unfolding run_length
  run_tokens [] k h = absurd (omega arith)
  run_tokens (b ∷ bs) zero h = ground arith
  run_tokens (b ∷ bs) (suc k) h = ground (arith, run_tokens bs k)

  run_ends : (bs : Bytes) → token_at bs (run_length float bs) ≡ false
  unfolding run_length
  run_ends [] = refl
  run_ends (b ∷ bs) = elim (Bool-cases (is_token_byte b)) [
    | inl e ↦ rw (e, token_at) (run_ends bs)
    | inr e ↦ rw (e, token_at) e
  ]

  candidate-Has :
      (s e s' e' : ℕ) (run : Bytes)
      → Has (entropy_match s e) (candidate float config occupied s' e' run) ↔ (
          (s ≡ s')
          × (e ≡ e')
          × (qualifies float config run ≡ true)
          × (overlaps_any s' e' occupied ≡ false))
  unfolding candidate
  candidate-Has s e s' e' run =
      one-Has s e s' e' (qualifies float config run) (overlaps_any s' e' occupied)

  module _ (w : Bytes) where
    -- A maximal run that begins at `i` or later, qualifies, and is free.
    abbrev Wanted : ℕ → ℕ → ℕ → Type 0
    Wanted i s e =
        (i ≤ s)
        × IsMaximal w s e
        × (qualifies float config (take (e - s) (drop s w)) ≡ true)
        × (overlaps_any s e occupied ≡ false)

    -- No run begins before an offset and goes on over it.
    abbrev IsEdge : ℕ → Type 0
    IsEdge i = ((k : ℕ) → suc k ≡ i → token_at w k ≡ false) ⊎ (token_at w i ≡ false)

    token_head : (i b : ℕ) (bs : Bytes) → drop i w ≡ b ∷ bs → token_at w i ≡ is_token_byte b
    token_head i b bs d =
        ap (token_at w) (let e : i ≡ i + 0 = omega arith in e)
        ∙ sym (token_at-drop i w 0)
        ∙ ap (λ r. token_at r 0) d

    -- The run that the inner loop finds.
    found_run :
        (i : ℕ) (b : ℕ) (bs : Bytes)
        → drop i w ≡ b ∷ bs
        → is_token_byte b ≡ true
        → IsEdge i
        → IsMaximal w i (i + suc (run_length float bs))
    found_run i b bs d t edge = record {
      nonempty = omega arith;
      tokens = λ k l u.
          let at : i + (k - i) ≡ k = omega arith in
          subst (λ j. token_at w j ≡ true) at
            (sym (token_at-drop i w (k - i))
              ∙ ap (λ r. token_at r (k - i)) d
              ∙ inside (k - i) (omega arith));
      ends =
          sym (token_at-drop i w (suc (run_length float bs)))
          ∙ ap (λ r. token_at r (suc (run_length float bs))) d
          ∙ run_ends bs;
      starts = begins edge;
    }
      where
        inside : (k : ℕ) → k < suc (run_length float bs) → token_at (b ∷ bs) k ≡ true
        inside zero h = t
        inside (suc k) h = run_tokens bs k (omega arith)

        begins : IsEdge i → (k : ℕ) → suc k ≡ i → token_at w k ≡ false
        begins (inl f) = f
        begins (inr f) = absurd (let g = token_head i b bs d in cc)

    same_bytes : (i n : ℕ) (r : Bytes) → drop i w ≡ r → take (i + n - i) (drop i w) ≡ take n r
    same_bytes i n r d =
        ap (λ (k : ℕ). take k (drop i w)) (let e : i + n - i ≡ n = omega arith in e) ∙ ap (take n) d

    found-Wanted :
        (i n : ℕ) (r : Bytes) (rest : List RawMatch) (s e : ℕ)
        → drop i w ≡ r
        → IsMaximal w i (i + n)
        → Has (entropy_match s e) rest ↔ Wanted (i + n) s e
        → Has (entropy_match s e) (candidate float config occupied i (i + n) (take n r) ++ rest)
          ↔ Wanted i s e
    found-Wanted i n r rest s e d m later = (
      λ h. elim ((Has-append (entropy_match s e) here rest).0 h) [
        | inl c ↦
            let (es, ee, q, o) = (candidate-Has s e i (i + n) (take n r)).0 c in
            rw (es, ee) (omega arith, m, rw (same_bytes i n r d) q, o)
        | inr c ↦ let (l, x, q, o) = later.0 c in (omega arith, x, q, o)
      ],
      λ (l, x, q, o). (Has-append (entropy_match s e) here rest).1 (elim (Bool-cases (ltb i s)) [
        | inl a ↦ inr (later.1 (begins_after w i (i + n) s e m x (ltb→lt i s a), x, q, o))
        | inr a ↦
            let es : s ≡ i = ground (arith, a) in
            let ee : e ≡ i + n = same_end w i e (i + n) (subst (λ j. IsMaximal w j e) es x) m in
            let run = ap₂ (λ (a b : ℕ). take (b - a) (drop a w)) es ee ∙ same_bytes i n r d in
            let free = ap₂ (λ (a b : ℕ). overlaps_any a b occupied) es ee in
            inl (
              (candidate-Has s e i (i + n) (take n r)).1
                (es, ee, subst (λ x. qualifies float config x ≡ true) run q, sym free ∙ o))
      ]),
    )
      where
        here : List RawMatch
        here = candidate float config occupied i (i + n) (take n r)

    skipped-Wanted : (i s e : ℕ) → token_at w i ≡ false → Wanted (i + 1) s e ↔ Wanted i s e
    skipped-Wanted i s e f =
        (λ (l, x, q, o). (omega arith, x, q, o), λ (l, x, q, o). (later l x, x, q, o))
      where
        later : i ≤ s → IsMaximal w s e → i + 1 ≤ s
        later l x = elim (Bool-cases (ltb i s)) [
          | inl a ↦ ground (arith, a)
          | inr a ↦
              let es : s ≡ i = ground (arith, a) in
              let t = x.tokens s (omega arith) x.nonempty in
              let t' = ap (token_at w) es in absurd cc
        ]

    scan-Has :
        (fuel i : ℕ) (r : Bytes)
        → drop i w ≡ r
        → length r ≤ fuel
        → IsEdge i
        → (s e : ℕ) → Has (entropy_match s e) (scan float config occupied fuel i r) ↔ Wanted i s e
    unfolding scan
    scan-Has zero i [] d l edge s e = (absurd, λ h. none_left w i s e d h.0 h.1)
    scan-Has zero i (b ∷ bs) d l edge s e = absurd (omega arith)
    scan-Has (suc fuel) i [] d l edge s e = (absurd, λ h. none_left w i s e d h.0 h.1)
    scan-Has (suc fuel) i (b ∷ bs) d l edge s e = elim (Bool-cases (is_token_byte b)) [
      | inl t ↦
          let n = suc (run_length float bs) in
          let m = found_run i b bs d t edge in
          rw (t, scan)
            (found-Wanted i n (b ∷ bs) (scan float config occupied fuel (i + n) (drop n (b ∷ bs))) s
              e d m
              (scan-Has fuel (i + n) (drop n (b ∷ bs)) (sym (drop-drop i n w) ∙ ap (drop n) d)
                (omega (arith, length-drop (run_length float bs) bs)) (inr m.ends) s e))
      | inr t ↦
          let f = token_head i b bs d ∙ t in
          let later =
            scan-Has fuel (i + 1) bs (sym (drop-drop i 1 w) ∙ ap (drop 1) d) (omega arith)
              (inl (λ k h. ap (token_at w) (let e : k ≡ i = omega arith in e) ∙ f)) s e in
          let skip = skipped-Wanted i s e f in
          rw (t, scan) (λ h. skip.0 (later.0 h), λ h. later.1 (skip.1 h))
    ]

    scan-IsEntropy : (fuel i : ℕ) (r : Bytes) → All IsEntropy (scan float config occupied fuel i r)
    unfolding scan candidate
    scan-IsEntropy zero i r = tt
    scan-IsEntropy (suc fuel) i [] = tt
    scan-IsEntropy (suc fuel) i (b ∷ bs) = elim (Bool-cases (is_token_byte b)) [
      | inl t ↦
          let n = suc (run_length float bs) in
          let free = not (overlaps_any i (i + n) occupied) in
          rw (t, scan)
            (All-append IsEntropy (candidate float config occupied i (i + n) (take n (b ∷ bs)))
              (scan float config occupied fuel (i + n) (drop n (b ∷ bs)))
              (one-IsEntropy i (i + n) (qualifies float config (take n (b ∷ bs)) && free))
              (scan-IsEntropy fuel (i + n) (drop n (b ∷ bs))))
      | inr t ↦ rw (t, scan) (scan-IsEntropy fuel (i + 1) bs)
    ]

module _ {F : Type 0} (float : FloatOps F) where
  -- The entropy test reports a span exactly if it is a maximal run of token bytes of the text that
  -- qualifies and overlaps none of the occupied spans; and it reports nothing but such matches, of
  -- medium confidence.
  pub high_entropy_matches_iff :
      (text : Chars) (config : MaskConfig F) (occupied : List (ℕ × ℕ))
      → ((s e : ℕ)
          → Has (entropy_match s e) (high_entropy_matches float text config occupied) ↔ (
              IsMaximal (as_bytes text) s e
              × (qualifies float config (take (e - s) (drop s (as_bytes text))) ≡ true)
              × (overlaps_any s e occupied ≡ false)))
        × All IsEntropy (high_entropy_matches float text config occupied)
  unfolding high_entropy_matches
  high_entropy_matches_iff text config occupied = (
    λ s e.
        let w = as_bytes text in
        let iff =
          scan-Has float config occupied w (length w) 0 w refl (omega arith)
            (inl (λ k h. absurd (omega arith))) s e in
        (λ h. ((iff.0 h).1, (iff.0 h).2, (iff.0 h).3), λ h. iff.1 (omega arith, h.0, h.1, h.2)),
    scan-IsEntropy float config occupied (as_bytes text) (length (as_bytes text)) 0 (as_bytes text),
  )
