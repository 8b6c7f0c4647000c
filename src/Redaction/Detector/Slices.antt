-- ===== src/Redaction/Detector/Slices.antt =====
-- The offsets in scalars that detect_secrets reports cut out of the text what the byte offsets of
-- the matches cut out of its bytes.
use clipy_si_core.Common.{
  ℕ, zero, suc, ◌+◌, ◌-◌, ◌≤◌, ◌<◌, ◌≡◌, refl, sym, ap, subst, ◌∙◌, inl, inr, true, Bool-cases,
  List, [], ◌∷◌, ◌++◌, append_assoc, arith, length, length-append, take, drop, take-append,
  drop-append, ltb, ltb→lt,
}
use clipy_si_core.Text.{Bytes, Chars, len_utf8, encode_char, as_bytes, IsBoundary}
use clipy_si_core.Redaction.Entropy.Maximal.{token_at, IsMaximal}
use clipy_si_core.Redaction.Detector.Offsets.{begun, none-begun, begun_more}

as_bytes-append : (s t : Chars) → as_bytes (s ++ t) ≡ as_bytes s ++ as_bytes t
unfolding as_bytes
as_bytes-append [] t = refl
as_bytes-append (c ∷ s) t =
    ap (λ r. encode_char c ++ r) (as_bytes-append s t)
    ∙ sym (append_assoc (encode_char c) (as_bytes s) (as_bytes t))

length-encode_char : (c : ℕ) → length (encode_char c) ≡ len_utf8 c
unfolding encode_char
length-encode_char c = ground arith

length-as_bytes-cons :
    (c : ℕ) (s : Chars) → length (as_bytes (c ∷ s)) ≡ len_utf8 c + length (as_bytes s)
unfolding as_bytes
length-as_bytes-cons c s =
    omega (arith, length-append (encode_char c) (as_bytes s), length-encode_char c)

len_utf8-positive : (c : ℕ) → 0 < len_utf8 c
len_utf8-positive c = ground arith

begun_step :
    (t byte : ℕ) (c : ℕ) (s : Chars)
    → byte < t
    → begun t byte (c ∷ s) ≡ suc (begun t (byte + len_utf8 c) s)
unfolding begun
begun_step t byte c s h = ground (arith, h)

-- The scalars that begin before the end of a front part are those of that part.
begun-front :
    (t byte : ℕ) (pre suf : Chars)
    → t ≡ byte + length (as_bytes pre)
    → begun t byte (pre ++ suf) ≡ length pre
begun-front t byte [] suf h = none-begun t byte suf (unfold as_bytes in omega arith)
begun-front t byte (c ∷ pre) suf h =
    begun_step t byte c (pre ++ suf)
      (omega (arith, h, length-as_bytes-cons c pre, len_utf8-positive c))
    ∙ ap suc
        (begun-front t (byte + len_utf8 c) pre suf (omega (arith, h, length-as_bytes-cons c pre)))

-- Two front parts of a text: the longer one goes on from the shorter.
longer :
    (p q r s : Chars)
    → p ++ q ≡ r ++ s
    → length p ≤ length r
    → (mid : Chars) × (r ≡ p ++ mid) × (q ≡ mid ++ s)
longer [] q r s e h = (r, refl, e)
longer (x ∷ p) q [] s e h = absurd (omega arith)
longer (x ∷ p) q (y ∷ r) s e h =
    let (mid, er, eq) = longer p q r s (ground arith) (omega arith) in (mid, ground arith, eq)

module _ (n : ℕ) (xs ys : List ℕ) (e : n ≡ length xs) where
  take_front : take n (xs ++ ys) ≡ xs
  take_front = rw e (take-append xs ys)

  drop_front : drop n (xs ++ ys) ≡ ys
  drop_front = rw e (drop-append xs ys)

-- The scalars between two boundaries are encoded by the bytes between them.
slice_parts :
    (p mid w : Chars) (s e i j : ℕ)
    → s ≡ length (as_bytes p)
    → e ≡ length (as_bytes (p ++ mid))
    → i ≡ length p
    → j ≡ length (p ++ mid)
    → as_bytes (take (j - i) (drop i (p ++ (mid ++ w))))
      ≡ take (e - s) (drop s (as_bytes (p ++ (mid ++ w))))
slice_parts p mid w s e i j hs he hi hj =
    ap as_bytes (
      ap (take (j - i)) (drop_front i p (mid ++ w) hi)
      ∙ take_front (j - i) mid w (omega (arith, length-append p mid)))
    ∙ sym (
        ap (λ (b : Bytes). take (e - s) (drop s b))
          (as_bytes-append p (mid ++ w)
            ∙ ap (λ (b : Bytes). as_bytes p ++ b) (as_bytes-append mid w))
        ∙ ap (take (e - s)) (drop_front s (as_bytes p) (as_bytes mid ++ as_bytes w) hs)
        ∙ take_front (e - s) (as_bytes mid) (as_bytes w)
            (omega (arith, bytes, length-append (as_bytes p) (as_bytes mid))))
  where
    bytes : length (as_bytes (p ++ mid)) ≡ length (as_bytes p ++ as_bytes mid)
    bytes = ap (λ (b : Bytes). length b) (as_bytes-append p mid)

-- The scalars between two boundaries are encoded by the bytes between them.
pub slice_lem :
    (text : Chars) (s e : ℕ)
    → IsBoundary text s
    → IsBoundary text e
    → s ≤ e
    → as_bytes (take (begun e 0 text - begun s 0 text) (drop (begun s 0 text) text))
      ≡ take (e - s) (drop s (as_bytes text))
slice_lem text s e (p, q, ep, es) (r, w, er, ee) le =
    let i : begun s 0 text ≡ length p =
      ap (begun s 0) ep ∙ begun-front s 0 p q (omega (arith, es)) in
    let j : begun e 0 text ≡ length r =
      ap (begun e 0) er ∙ begun-front e 0 r w (omega (arith, ee)) in
    let (mid, er', eq) =
      longer p q r w (sym ep ∙ er) (omega (arith, i, j, begun_more s e 0 text le)) in
    let whole : text ≡ p ++ (mid ++ w) = ep ∙ ap (λ (b : Chars). p ++ b) eq in
    subst
      (λ v.
        as_bytes (take (begun e 0 text - begun s 0 text) (drop (begun s 0 text) v))
        ≡ take (e - s) (drop s (as_bytes v)))
      (sym whole)
      (slice_parts p mid w s e (begun s 0 text) (begun e 0 text) es
        (ee ∙ ap (λ (b : Chars). length (as_bytes b)) er') i (j ∙ ap (λ (b : Chars). length b) er'))

small_token :
    (c k : ℕ) (bs : Bytes)
    → k < len_utf8 c
    → token_at (encode_char c ++ bs) k ≡ true
    → (k ≡ 0) × (len_utf8 c ≡ 1)
unfolding encode_char
small_token c zero bs h t = ground arith
small_token c (suc zero) bs h t = ground arith
small_token c (suc (suc zero)) bs h t = ground arith
small_token c (suc (suc (suc zero))) bs h t = ground arith
small_token c (suc (suc (suc (suc k)))) bs h t = ground arith

token_at-append : (xs ys : Bytes) (k : ℕ) → token_at (xs ++ ys) (length xs + k) ≡ token_at ys k
token_at-append [] ys k = ap (token_at ys) (let e : 0 + k ≡ k = omega arith in e)
token_at-append (x ∷ xs) ys k =
    ap (token_at (x ∷ (xs ++ ys)))
      (let e : suc (length xs) + k ≡ suc (length xs + k) = omega arith in e)
    ∙ token_at-append xs ys k

cons-IsBoundary :
    (c : ℕ) (cs : Chars) (k : ℕ) → IsBoundary cs k → IsBoundary (c ∷ cs) (len_utf8 c + k)
cons-IsBoundary c cs k (pre, suf, e, l) =
    (c ∷ pre, suf, ap (◌∷◌ c) e, omega (arith, l, length-as_bytes-cons c pre))

pub zero-IsBoundary : (text : Chars) → IsBoundary text 0
unfolding as_bytes
zero-IsBoundary text = ([], text, refl, refl)

-- A byte of a token is a scalar of its own.
token_boundaries :
    (text : Chars) (k : ℕ)
    → token_at (as_bytes text) k ≡ true
    → IsBoundary text k × IsBoundary text (k + 1)
unfolding as_bytes
token_boundaries [] k h = absurd (let f = h in cc)
token_boundaries (c ∷ cs) k h = elim (Bool-cases (ltb k (len_utf8 c))) [
  | inl l ↦
      let (z, one) = small_token c k (as_bytes cs) (ltb→lt k (len_utf8 c) l) h in
      (
        subst (IsBoundary (c ∷ cs)) (sym z) (zero-IsBoundary (c ∷ cs)),
        subst (IsBoundary (c ∷ cs)) (omega (arith, z, one))
            (cons-IsBoundary c cs 0 (zero-IsBoundary cs)),
      )
  | inr l ↦
      let n = len_utf8 c in
      let at : k ≡ length (encode_char c) + (k - n) = ground (arith, l, length-encode_char c) in
      let (lo, hi) = token_boundaries cs (k - n) (
        sym (token_at-append (encode_char c) (as_bytes cs) (k - n))
        ∙ ap (token_at (encode_char c ++ as_bytes cs)) (sym at)
        ∙ h) in
      (
        subst (IsBoundary (c ∷ cs)) {x = n + (k - n)} (omega (arith, at, length-encode_char c))
            (cons-IsBoundary c cs (k - n) lo),
        subst (IsBoundary (c ∷ cs)) {x = n + (k - n + 1)} (omega (arith, at, length-encode_char c))
            (cons-IsBoundary c cs (k - n + 1) hi),
      )
]

pub IsMaximal-IsBoundary :
    (text : Chars) (s e : ℕ) → IsMaximal (as_bytes text) s e → IsBoundary text s × IsBoundary text e
IsMaximal-IsBoundary text s e m =
    let first = token_boundaries text s (m.tokens s (omega arith) m.nonempty) in
    let last =
      token_boundaries text (e - 1)
        (m.tokens (e - 1) (omega (arith, m.nonempty)) (omega (arith, m.nonempty))) in
    (first.0, subst (IsBoundary text) (omega (arith, m.nonempty)) last.1)
