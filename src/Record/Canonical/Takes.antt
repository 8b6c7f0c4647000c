-- ===== src/Record/Canonical/Takes.antt =====
-- What a read that succeeds has taken from the buffer, whatever the buffer holds.
use clipy_si_core.Common.{
  ℕ, zero, suc, ◌+◌, ◌-◌, ◌≤◌, ◌<◌, ◌≡◌, refl, sym, ap, subst, ◌∙◌, inl, inr, Bool, true, false,
  some, Option-cases, [], ◌∷◌, ◌++◌, arith, length, take, drop, get_elem?, get_range, length-drop,
  length-take, take-append-drop, drop-drop, All,
}
use clipy_si_core.Common.Result.{ok, >>=-eq-ok}
use clipy_si_core.Text.{Bytes, Chars, IsByte, as_bytes, from_utf8}
use clipy_si_core.Text.RoundTrip.{as_bytes-from_utf8}
use clipy_si_core.Record.Words.{u32_mod, to_le_bytes, from_le_bytes, to_le_bytes-from_le_bytes}
use clipy_si_core.Record.Canonical.{
  Reader, read_u8, read_slice, read_u32, read_bytes, string_of, flag_of, read_string, read_flag,
  flag,
}
use clipy_si_core.Record.Canonical.Reads.{rest, IsInside}
use clipy_si_core.Record.Canonical.Layout.{frame, IsField}

All-append→ : (xs ys : Bytes) → All IsByte (xs ++ ys) → All IsByte xs × All IsByte ys
All-append→ [] ys h = (tt, h)
All-append→ (x ∷ xs) ys h = let (hx, hy) = All-append→ xs ys h.1 in ((h.0, hx), hy)

-- The reader is inside its buffer, and bytes are left.
abbrev pub IsReading : Reader → Type 0
IsReading r = IsInside r × All IsByte (rest r)

-- The read took what `enc` puts in front of the rest.
abbrev pub Took : Reader → (Bytes → Bytes) → Reader → Type 0
Took r enc r' = (rest r ≡ enc (rest r')) × IsReading r' × (r'.buf ≡ r.buf)

abbrev forward : Reader → ℕ → Reader
forward r n = record r { position = r.position + n }

slice_lem :
    (r : Reader) (n : ℕ) (xs : Bytes)
    → IsReading r
    → get_range r.buf r.position (r.position + n) ≡ some xs
    → (xs ≡ take n (rest r)) × (r.position + n ≤ length r.buf)
slice_lem r n xs i h = ground (arith, ap (λ (k : ℕ). take k (rest r)) (exact r.position n))
  where
    exact : (a b : ℕ) → a + b - a ≡ b
    exact a b = omega arith

slice-Took :
    (r : Reader) (n : ℕ) (xs : Bytes)
    → IsReading r
    → get_range r.buf r.position (r.position + n) ≡ some xs
    → Took r (λ t. xs ++ t) (forward r n) × (length xs ≡ n) × All IsByte xs
slice-Took r n xs i h =
    let (taken, fit) = slice_lem r n xs i h in
    let split =
      sym (take-append-drop n (rest r))
      ∙ ap (λ (s : Bytes). s ++ drop n (rest r)) (sym taken)
      ∙ ap (λ (s : Bytes). xs ++ s) (drop-drop r.position n r.buf) in
    let (left, right) = All-append→ xs (rest (forward r n)) (subst (All IsByte) split i.1) in
    (
      (split, ((fit, i.0.1), right), refl),
      omega (arith, ap length taken, length-take n (rest r), length-drop r.position r.buf),
      left,
    )

read_slice-Took :
    (r : Reader) (n : ℕ) (xs : Bytes) (r' : Reader)
    → IsReading r
    → read_slice n r ≡ ok (xs, r')
    → Took r (λ t. xs ++ t) r' × (length xs ≡ n) × All IsByte xs
unfolding read_slice
read_slice-Took r n xs r' i h = elim (Option-cases (get_range r.buf r.position (r.position + n))) [
  | inl e ↦ absurd (ground (arith, e))
  | inr (ys, e) ↦
      let eq : (xs ≡ ys) × (r' ≡ forward r n) = (ground (arith, e), ground (arith, e)) in
      rw (eq.0, eq.1) (slice-Took r n ys i e)
]

four_bytes :
    (xs : Bytes)
    → length xs ≡ 4
    → All IsByte xs
    → (to_le_bytes (from_le_bytes xs) ≡ xs) × (from_le_bytes xs < u32_mod)
four_bytes [] h b = absurd (omega arith)
four_bytes (x ∷ []) h b = absurd (omega arith)
four_bytes (x ∷ y ∷ []) h b = absurd (omega arith)
four_bytes (x ∷ y ∷ z ∷ []) h b = absurd (omega arith)
four_bytes (x ∷ y ∷ z ∷ w ∷ []) h b =
    (to_le_bytes-from_le_bytes x y z w b.0 b.1.0 b.1.1.0 b.1.1.1.0, omega arith)
four_bytes (x ∷ y ∷ z ∷ w ∷ v ∷ xs) h b = absurd (omega arith)

pub read_u32-Took :
    (r : Reader) (n : ℕ) (r' : Reader)
    → IsReading r
    → read_u32 r ≡ ok (n, r')
    → Took r (λ t. to_le_bytes n ++ t) r' × (n < u32_mod)
unfolding read_u32
read_u32-Took r n r' i h =
    let ((xs, q), m, e) = >>=-eq-ok (read_slice 4 r) (λ (s, q). ok (from_le_bytes s, q)) h in
    let (took, len, bytes) = read_slice-Took r 4 xs q i m in
    let (back, small) = four_bytes xs len bytes in
    let eq : (n ≡ from_le_bytes xs) × (r' ≡ q) = (ground arith, ground arith) in
    rw (eq.1, eq.0) ((took.0 ∙ ap (λ (s : Bytes). s ++ rest q) (sym back), took.1, took.2), small)

-- One read after another.
pub Took-trans :
    (r q r' : Reader) (f g : Bytes → Bytes) → Took r f q → Took q g r' → Took r (λ t. f (g t)) r'
Took-trans r q r' f g t u = (t.0 ∙ ap f u.0, u.1, u.2 ∙ t.2)

pub read_bytes-Took :
    (r : Reader) (xs : Bytes) (r' : Reader)
    → IsReading r
    → read_bytes r ≡ ok (xs, r')
    → Took r (frame xs) r' × (length xs < u32_mod)
unfolding read_bytes
read_bytes-Took r xs r' i h =
    let ((n, q), m, e) = >>=-eq-ok (read_u32 r) (λ (n, q). read_slice n q) h in
    let (t, small) = read_u32-Took r n q i m in
    let (u, len, bytes) = read_slice-Took q n xs r' t.1 e in
    rw len (Took-trans r q r' (λ t. to_le_bytes n ++ t) (λ t. xs ++ t) t u, small)

pub read_string-Took :
    (r : Reader) (s : Chars) (r' : Reader)
    → IsReading r
    → read_string r ≡ ok (s, r')
    → Took r (frame (as_bytes s)) r' × IsField s
unfolding read_string
read_string-Took r s r' i h =
    let ((bs, q), m, e) = >>=-eq-ok (read_bytes r) (λ (bs, q). string_of bs q) h in
    let (t, small) = read_bytes-Took r bs q i m in
    elim (Option-cases (from_utf8 bs)) [
      | inl k ↦ absurd (ground (arith, k))
      | inr (c, k) ↦
          let eq : (s ≡ c) × (r' ≡ q) = (ground (arith, k), ground (arith, k)) in
          let (valid, enc) = as_bytes-from_utf8 bs c k in rw (eq.0, eq.1, enc) (t, (valid, small))
    ]

get_elem?-split :
    (xs : Bytes) (n b : ℕ)
    → get_elem? xs n ≡ some b
    → (drop n xs ≡ b ∷ drop (suc n) xs) × (n < length xs)
get_elem?-split [] n b h = cc
get_elem?-split (x ∷ xs) zero b h = ground arith
get_elem?-split (x ∷ xs) (suc n) b h = let (e, l) = get_elem?-split xs n b h in (e, omega arith)

read_u8-Took :
    (r : Reader) (b : ℕ) (r' : Reader)
    → IsReading r
    → read_u8 r ≡ ok (b, r')
    → Took r (λ t. b ∷ t) r'
unfolding read_u8
read_u8-Took r b r' i h = elim (Option-cases (get_elem? r.buf r.position)) [
  | inl e ↦ absurd (ground (arith, e))
  | inr (c, e) ↦
      let eq : (b ≡ c) × (r' ≡ forward r 1) = (ground (arith, e), ground (arith, e)) in
      let (split, fit) = get_elem?-split r.buf r.position c e in
      let front : rest r ≡ c ∷ rest (forward r 1) =
        split ∙ ap (λ (k : ℕ). c ∷ drop k r.buf) (plus_one r.position) in
      rw (eq.0, eq.1) (front, ((omega arith, i.0.1), (subst (All IsByte) front i.1).1), refl)
]
  where
    plus_one : (n : ℕ) → suc n ≡ n + 1
    plus_one n = omega arith

flag_of-flag : (n : ℕ) (b : Bool) (q r : Reader) → flag_of n q ≡ ok (b, r) → (n ≡ flag b) × (r ≡ q)
unfolding flag_of
flag_of-flag n true q r h = ground arith
flag_of-flag n false q r h = ground arith

pub read_flag-Took :
    (r : Reader) (b : Bool) (r' : Reader)
    → IsReading r
    → read_flag r ≡ ok (b, r')
    → Took r (λ t. flag b ∷ t) r'
unfolding read_flag
read_flag-Took r b r' i h =
    let ((n, q), m, e) = >>=-eq-ok (read_u8 r) (λ (n, q). flag_of n q) h in
    let eq = flag_of-flag n b q r' e in rw (eq.1, ← eq.0) (read_u8-Took r n q i m)
