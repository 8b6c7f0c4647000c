-- ===== src/Record/Canonical/Reads.antt =====
-- What one read takes from the buffer, when it is given what the encoder wrote.
use clipy_si_core.Common.{
  ℕ, ◌+◌, ◌-◌, ◌≤◌, ◌<◌, ◌≡◌, refl, sym, ap, ◌∙◌, Bool, true, false, some, [], ◌∷◌, ◌++◌, arith,
  length, take, drop, get_elem?, get_range, length-append, length-drop, take-append, drop-append,
  drop-drop, get_elem?-drop, All,
}
use clipy_si_core.Common.Result.{ok}
use clipy_si_core.Text.{Bytes, Chars, IsScalar, as_bytes}
use clipy_si_core.Text.RoundTrip.{from_utf8-as_bytes}
use clipy_si_core.Record.Words.{u32_mod, isize_mod, to_le_bytes, from_le_bytes-to_le_bytes}
use clipy_si_core.Record.Canonical.{
  Reader, Read, read_u8, read_u32, read_bytes, read_string, read_flag, flag,
}

-- What is left to read.
abbrev pub rest : Reader → Bytes
rest r = drop r.position r.buf

abbrev pub IsInside : Reader → Type 0
IsInside r = (r.position ≤ length r.buf) × (length r.buf < isize_mod)

-- The read returns `a`, and stands before `t`.
abbrev pub Returns {ℓ} : {A : Type ℓ} → Read A → A → Bytes → Bytes → Type ℓ
Returns m a t buf = (r' : Reader) × (m ≡ ok (a, r')) × (rest r' ≡ t) × IsInside r' × (r'.buf ≡ buf)

advance : Reader → ℕ → Reader
advance r n = record r { position = r.position + n }

-- Moving past bytes that are there.
module _ (r : Reader) (xs t : Bytes) (i : IsInside r) (e : rest r ≡ xs ++ t) where
  fits : r.position + length xs ≤ length r.buf
  fits = omega (arith, ap length e, length-drop r.position r.buf, length-append xs t)

  rest-advance : drop (r.position + length xs) r.buf ≡ t
  rest-advance =
      sym (drop-drop r.position (length xs) r.buf) ∙ ap (drop (length xs)) e ∙ drop-append xs t

  get_range_lem : get_range r.buf r.position (r.position + length xs) ≡ some xs
  get_range_lem = ground (arith, fits, sliced)
    where
      sliced : take (r.position + length xs - r.position) (drop r.position r.buf) ≡ xs
      sliced =
          ap (λ (k : ℕ). take k (drop r.position r.buf))
            (let k : r.position + length xs - r.position ≡ length xs = omega arith in k)
          ∙ ap (take (length xs)) e
          ∙ take-append xs t

  get_elem?_lem : get_elem? r.buf r.position ≡ get_elem? (xs ++ t) 0
  get_elem?_lem = get_elem?-drop r.position r.buf ∙ ap (λ s. get_elem? s 0) e

pub read_u8-Returns :
    (r : Reader) (b : ℕ) (t : Bytes) → IsInside r → rest r ≡ b ∷ t → Returns (read_u8 r) b t r.buf
unfolding read_u8
read_u8-Returns r b t i e = (
  record r { position = r.position + 1 },
  rw (get_elem?_lem r (b ∷ []) t i e),
  rest-advance r (b ∷ []) t i e,
  (fits r (b ∷ []) t i e, i.1),
  refl,
)

pub read_u32-Returns :
    (r : Reader) (n : ℕ) (t : Bytes)
    → n < u32_mod
    → IsInside r
    → rest r ≡ to_le_bytes n ++ t
    → Returns (read_u32 r) n t r.buf
unfolding read_u32
read_u32-Returns r n t h i e = (
  record r { position = r.position + 4 },
  ground (arith, get_range_lem r (to_le_bytes n) t i e, from_le_bytes-to_le_bytes n h),
  rest-advance r (to_le_bytes n) t i e,
  (fits r (to_le_bytes n) t i e, i.1),
  refl,
)

pub read_bytes-Returns :
    (r : Reader) (xs t : Bytes)
    → length xs < u32_mod
    → IsInside r
    → rest r ≡ to_le_bytes (length xs) ++ (xs ++ t)
    → Returns (read_bytes r) xs t r.buf
unfolding read_bytes
read_bytes-Returns r xs t h i e =
    let (q, m, et, iq, eb) = read_u32-Returns r (length xs) (xs ++ t) h i e in
    (
      record q { position = q.position + length xs },
      rw m (ground (arith, get_range_lem q xs t iq et)),
      rest-advance q xs t iq et,
      (fits q xs t iq et, iq.1),
      eb,
    )

pub read_string-Returns :
    (r : Reader) (s : Chars) (t : Bytes)
    → All IsScalar s
    → length (as_bytes s) < u32_mod
    → IsInside r
    → rest r ≡ to_le_bytes (length (as_bytes s)) ++ (as_bytes s ++ t)
    → Returns (read_string r) s t r.buf
unfolding read_string
read_string-Returns r s t v h i e =
    let (q, m, et, iq, eb) = read_bytes-Returns r (as_bytes s) t h i e in
    (q, rw (m, from_utf8-as_bytes s v), et, iq, eb)

pub read_flag-Returns :
    (r : Reader) (b : Bool) (t : Bytes)
    → IsInside r
    → rest r ≡ flag b ∷ t
    → Returns (read_flag r) b t r.buf
unfolding read_flag
read_flag-Returns r true t i e =
    let (q, m, et, iq, eb) = read_u8-Returns r 1 t i e in (q, rw m, et, iq, eb)
read_flag-Returns r false t i e =
    let (q, m, et, iq, eb) = read_u8-Returns r 0 t i e in (q, rw m, et, iq, eb)
