-- ===== src/Redaction/Mask/Laws.antt =====
-- What a masked text shows.
use clipy_si_core.Common.{
  ℕ, zero, suc, ◌+◌, ◌-◌, ◌≤◌, ◌<◌, ◌≡◌, refl, ap, ◌∙◌, inl, inr, Bool, false, Bool-cases, ◌&&◌,
  Option, none, some, [], ◌∷◌, ◌++◌, arith, length, length-append, length-take, length-drop,
  length-replicate, take, drop, get_elem?, ltb, leb, if◌then◌else◌,
}
use clipy_si_core.Extern.Float.{FloatOps}
use clipy_si_core.Extern.Regex.{RegexOps}
use clipy_si_core.Redaction.{MaskStyle, full, prefix2, suffix4, MaskConfig}
use clipy_si_core.Redaction.Detector.{is_secret}
use clipy_si_core.Redaction.Mask.{bullet, bullets, styled, evaluate, mask}
use clipy_si_core.Text.{Chars}

-- Whether a style shows the scalar at `i` of a text of `len` scalars.
abbrev pub shows : MaskStyle → ℕ → ℕ → Bool
shows full len i = false
shows prefix2 len i = ltb i 2 && ltb 2 len
shows suffix4 len i = leb (len - 4) i && ltb 4 len

abbrev pub masked_at : MaskStyle → Chars → ℕ → Option ℕ
masked_at style text i =
    if ltb i (length text)
    then (if shows style (length text) i then get_elem? text i else some bullet)
    else none

get_elem?-replicate : (n i : ℕ) → get_elem? (bullets n) i ≡ (if ltb i n then some bullet else none)
get_elem?-replicate zero i = ground arith
get_elem?-replicate (suc n) zero = ground arith
get_elem?-replicate (suc n) (suc i) = ground (arith, get_elem?-replicate n i)

get_elem?-append-left :
    (xs ys : Chars) (i : ℕ) → i < length xs → get_elem? (xs ++ ys) i ≡ get_elem? xs i
get_elem?-append-left [] ys i h = absurd (omega arith)
get_elem?-append-left (x ∷ xs) ys zero h = refl
get_elem?-append-left (x ∷ xs) ys (suc i) h = get_elem?-append-left xs ys i (omega arith)

get_elem?-append-right :
    (xs ys : Chars) (i : ℕ) → length xs ≤ i → get_elem? (xs ++ ys) i ≡ get_elem? ys (i - length xs)
get_elem?-append-right [] ys i h = ap (get_elem? ys) (let e : i ≡ i - 0 = omega arith in e)
get_elem?-append-right (x ∷ xs) ys zero h = absurd (omega arith)
get_elem?-append-right (x ∷ xs) ys (suc i) h =
    get_elem?-append-right xs ys i (omega arith)
    ∙ ap (get_elem? ys) (let e : i - length xs ≡ suc i - suc (length xs) = omega arith in e)

get_elem?-take : (n : ℕ) (xs : Chars) (i : ℕ) → i < n → get_elem? (take n xs) i ≡ get_elem? xs i
get_elem?-take zero xs i h = absurd (omega arith)
get_elem?-take (suc n) [] i h = refl
get_elem?-take (suc n) (x ∷ xs) zero h = refl
get_elem?-take (suc n) (x ∷ xs) (suc i) h = get_elem?-take n xs i (omega arith)

get_elem?-past : (xs : Chars) (i : ℕ) → length xs ≤ i → get_elem? xs i ≡ none
get_elem?-past [] i h = refl
get_elem?-past (x ∷ xs) zero h = absurd (omega arith)
get_elem?-past (x ∷ xs) (suc i) h = get_elem?-past xs i (omega arith)

get_elem?-drop_at : (n : ℕ) (xs : Chars) (i : ℕ) → get_elem? (drop n xs) i ≡ get_elem? xs (n + i)
get_elem?-drop_at zero xs i = ap (get_elem? xs) (let e : i ≡ 0 + i = omega arith in e)
get_elem?-drop_at (suc n) [] i = refl
get_elem?-drop_at (suc n) (x ∷ xs) i =
    get_elem?-drop_at n xs i
    ∙ ap (get_elem? (x ∷ xs)) (let e : suc (n + i) ≡ suc n + i = omega arith in e)

-- The style keeps the length of a text.
pub length-styled : (style : MaskStyle) (text : Chars) → length (styled style text) ≡ length text
unfolding styled
length-styled full text = length-replicate (length text) bullet
length-styled prefix2 text = ground (
  arith,
  length-append (take 2 text) (bullets (length text - 2)),
  length-take 2 text,
  length-replicate (length text) bullet,
  length-replicate (length text - 2) bullet,
)
length-styled suffix4 text = ground (
  arith,
  length-append (bullets (length text - 4)) (drop (length text - 4) text),
  length-drop (length text - 4) text,
  length-replicate (length text) bullet,
  length-replicate (length text - 4) bullet,
)

prefix-at :
    (text : Chars) (k i : ℕ)
    → k ≤ length text
    → get_elem? (take k text ++ bullets (length text - k)) i
      ≡ (if ltb i (length text) then (if ltb i k then get_elem? text i else some bullet) else none)
prefix-at text k i h = elim (Bool-cases (ltb i k)) [
  | inl e ↦
      get_elem?-append-left (take k text) (bullets (length text - k)) i
        (ground (arith, e, length-take k text))
      ∙ get_elem?-take k text i (ground (arith, e))
      ∙ ground (arith, e)
  | inr e ↦
      get_elem?-append-right (take k text) (bullets (length text - k)) i
        (ground (arith, e, length-take k text))
      ∙ get_elem?-replicate (length text - k) (i - length (take k text))
      ∙ ground (arith, e, length-take k text)
]

suffix-at :
    (text : Chars) (d i : ℕ)
    → d ≤ length text
    → get_elem? (bullets d ++ drop d text) i
      ≡ (if ltb i (length text) then (if leb d i then get_elem? text i else some bullet) else none)
suffix-at text d i h = elim (Bool-cases (leb d i)) [
  | inl e ↦
      get_elem?-append-right (bullets d) (drop d text) i
        (ground (arith, e, length-replicate d bullet))
      ∙ get_elem?-drop_at d text (i - length (bullets d))
      ∙ ap (get_elem? text) (
          let q : d + (i - length (bullets d)) ≡ i = ground (arith, e, length-replicate d bullet) in
          q)
      ∙ ground (arith, e, get_elem?-past text i)
  | inr e ↦
      get_elem?-append-left (bullets d) (drop d text) i
        (ground (arith, e, length-replicate d bullet))
      ∙ get_elem?-replicate d i
      ∙ ground (arith, e)
]

-- Each scalar of a styled text is a bullet or, where the style shows it, the text's own.
styled-at :
    (style : MaskStyle) (text : Chars) (i : ℕ)
    → get_elem? (styled style text) i ≡ masked_at style text i
unfolding styled
styled-at full text i = get_elem?-replicate (length text) i
styled-at prefix2 text i = elim (Bool-cases (leb (length text) 2)) [
  | inl e ↦ ground (arith, e, get_elem?-replicate (length text) i)
  | inr e ↦ ground (arith, e, prefix-at text 2 i)
]
styled-at suffix4 text i = elim (Bool-cases (leb (length text) 4)) [
  | inl e ↦ ground (arith, e, get_elem?-replicate (length text) i)
  | inr e ↦ ground (arith, e, suffix-at text (length text - 4) i)
]

module _ {Regex F : Type 0} (regex : RegexOps Regex) (float : FloatOps F) where
  -- `evaluate` is the verdict and the display of the two calls.
  pub evaluate_lem :
      (text : Chars) (config : MaskConfig F)
      → evaluate regex float text config ≡ record {
        is_secret = is_secret regex float text config;
        display = mask regex float text config;
      }
  unfolding evaluate mask
  evaluate_lem text config = ground arith

  -- If masking is on and a secret is there, each scalar of the display is a bullet or, where the
  -- style shows it, the text's own: none for `full`, the first two of more than two for `prefix2`,
  -- the last four of more than four for `suffix4`; and there are as many as in the text. Otherwise
  -- the text is displayed.
  pub mask-at :
      (text : Chars) (config : MaskConfig F) (i : ℕ)
      → get_elem? (mask regex float text config) i ≡ (
          if config.enabled && is_secret regex float text config
          then masked_at config.style text i
          else get_elem? text i)
  unfolding evaluate mask
  mask-at text config i = ground (arith, styled-at config.style text i)

  pub length-mask :
      (text : Chars) (config : MaskConfig F) → length (mask regex float text config) ≡ length text
  unfolding evaluate mask
  length-mask text config = ground (arith, length-styled config.style text)
