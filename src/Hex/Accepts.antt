-- ===== src/Hex/Accepts.antt =====
-- The texts that `deserialize` of hexutil.rs accepts.
use clipy_si_core.Common.{
  ℕ, ◌+◌, ◌*◌, ◌%◌, ◌≤◌, ◌<◌, ◌≡◌, ◌↔◌, refl, sym, ap₂, subst, ◌∙◌, if◌then◌else◌, ◌⊎◌, inl, inr,
  false, Bool-cases, ◌==◌, ==_iff, Option, none, some, Option-cases, [], ◌∷◌, arith, length, All,
}
use clipy_si_core.Common.Result.{ok, ◌>>=◌, >>=-eq-ok}
use clipy_si_core.Hex.{
  decode_pair, from_str_radix, to_digit, two_digits, hex_pairs, deserialize, starts_inside,
}
use clipy_si_core.Text.{Bytes, Chars, as_bytes, encode_char}

-- A hexadecimal digit, in lower or upper case, and its value.
abbrev pub IsDigit : ℕ → ℕ → Type 0
IsDigit c v =
    ((48 ≤ c) × (c < 58) × (c ≡ 48 + v))
    ⊎ ((97 ≤ c) × (c < 103) × (c ≡ 87 + v))
    ⊎ ((65 ≤ c) × (c < 71) × (c ≡ 55 + v))

-- Two characters for each byte: its two digits, or a plus sign and one digit.
pub data Spells : Chars → Bytes → Type 0 where
  nothing : Spells [] []
  digits :
      {s : Chars} {bs : Bytes} (a b v w : ℕ)
      → IsDigit a v
      → IsDigit b w
      → Spells s bs
      → Spells (a ∷ b ∷ s) ((v * 16 + w) ∷ bs)
  signed :
      {s : Chars} {bs : Bytes} (b w : ℕ)
      → IsDigit b w
      → Spells s bs
      → Spells (b'+' ∷ b ∷ s) (w ∷ bs)

to_digit_iff : (c v : ℕ) → (to_digit c ≡ some v) ↔ IsDigit c v
to_digit_iff c v = ground arith

abbrev Pair : ℕ → ℕ → ℕ → Type 0
Pair a b u =
    ((a ≡ b'+') × IsDigit b u) ⊎ ((v : ℕ) × (w : ℕ) × IsDigit a v × IsDigit b w × (u ≡ v * 16 + w))

none_first : (o : Option ℕ) (u : ℕ) → two_digits none o ≡ some u → ⊥
none_first o u h = cc

none_second : (o : Option ℕ) (u : ℕ) → two_digits o none ≡ some u → ⊥
none_second none u h = cc
none_second (some a) u h = cc

both :
    (a b u : ℕ)
    → two_digits (to_digit a) (to_digit b) ≡ some u
    → (v : ℕ) × (w : ℕ) × IsDigit a v × IsDigit b w × (u ≡ v * 16 + w)
both a b u h = elim (Option-cases (to_digit a)) [
  | inl n ↦
      absurd
        (let g = subst (λ o. two_digits o (to_digit b) ≡ some u) n h in none_first (to_digit b) u g)
  | inr (v, e) ↦ elim (Option-cases (to_digit b)) [
    | inl n ↦ absurd (
        let g = subst (λ o. two_digits (to_digit a) o ≡ some u) n h in none_second (to_digit a) u g)
    | inr (w, f) ↦
        let g : some (v * 16 + w) ≡ some u = sym (ap₂ two_digits e f) ∙ h in
        (v, w, (to_digit_iff a v).0 e, (to_digit_iff b w).0 f, ground arith)
  ]
]

from_str_radix_ok : (a b u : ℕ) → from_str_radix a b ≡ some u → Pair a b u
unfolding from_str_radix
from_str_radix_ok a b u h = elim (Bool-cases (a == b'+')) [
  | inl e ↦
      let d : to_digit b ≡ some u = ground (arith, e, h) in
      inl ((==_iff a b'+').0 e, (to_digit_iff b u).0 d)
  | inr e ↦
      let d : two_digits (to_digit a) (to_digit b) ≡ some u =
        subst (λ t. (if t then to_digit b else two_digits (to_digit a) (to_digit b)) ≡ some u) e
          h in
      inr (both a b u d)
]

decode_pair_ok :
    (a b u : ℕ) (rest : Bytes) → decode_pair a b rest ≡ ok u → from_str_radix a b ≡ some u
unfolding decode_pair
decode_pair_ok a b u rest h = ground arith

-- What is spelled is ASCII.
abbrev IsAscii : ℕ → Type 0
IsAscii c = c < 0x80

Spells-IsAscii : {s : Chars} {bs : Bytes} → Spells s bs → All IsAscii s
Spells-IsAscii nothing = tt
Spells-IsAscii (digits a b v w p q m) = (ground arith, (ground arith, Spells-IsAscii m))
Spells-IsAscii (signed b w q m) = (omega arith, (ground arith, Spells-IsAscii m))

as_bytes-IsAscii : (s : Chars) → All IsAscii s → as_bytes s ≡ s
unfolding as_bytes encode_char
as_bytes-IsAscii [] h = refl
as_bytes-IsAscii (c ∷ s) h = ground (arith, as_bytes-IsAscii s h.1)

-- ASCII bytes are of a text that has nothing else.
IsAscii-as_bytes : (s : Chars) → All IsAscii (as_bytes s) → as_bytes s ≡ s
unfolding as_bytes encode_char
IsAscii-as_bytes [] h = refl
IsAscii-as_bytes (c ∷ s) h = ground (arith, h, IsAscii-as_bytes s)

pairs-Spells : (s bs : Bytes) → hex_pairs s ≡ ok bs → Spells s bs
unfolding hex_pairs
pairs-Spells [] bs h = let e : bs ≡ [] = ground arith in rw e nothing
pairs-Spells (a ∷ []) bs h = cc
pairs-Spells (a ∷ b ∷ s) bs h =
    let (u, m, h1) = >>=-eq-ok (decode_pair a b s) (λ u. hex_pairs s >>= λ us. ok (u ∷ us)) h in
    let (us, m', h2) = >>=-eq-ok (hex_pairs s) (λ us. ok (u ∷ us)) h1 in
    let eq : bs ≡ u ∷ us = ground arith in
    rw eq (spelled (from_str_radix_ok a b u (decode_pair_ok a b u s m)) (pairs-Spells s us m'))
  where
    spelled : {u : ℕ} {us : Bytes} → Pair a b u → Spells s us → Spells (a ∷ b ∷ s) (u ∷ us)
    spelled {u} {us} (inl (e, d)) k =
        subst (λ c. Spells (c ∷ b ∷ s) (u ∷ us)) (sym e) (signed b u d k)
    spelled {us = us} (inr (v, w, p, q, e)) k =
        subst (λ n. Spells (a ∷ b ∷ s) (n ∷ us)) (sym e) (digits a b v w p q k)

pair_digits :
    (a b v w : ℕ) (rest : Bytes)
    → IsDigit a v
    → IsDigit b w
    → starts_inside rest ≡ false
    → decode_pair a b rest ≡ ok (v * 16 + w)
unfolding decode_pair from_str_radix
pair_digits a b v w rest p q h =
    rw ((to_digit_iff a v).1 p, (to_digit_iff b w).1 q, h) (ground arith)

pair_signed :
    (b w : ℕ) (rest : Bytes)
    → IsDigit b w
    → starts_inside rest ≡ false
    → decode_pair b'+' b rest ≡ ok w
unfolding decode_pair from_str_radix
pair_signed b w rest q h = rw ((to_digit_iff b w).1 q, h) refl

IsAscii-starts : (s : Bytes) → All IsAscii s → starts_inside s ≡ false
IsAscii-starts [] h = refl
IsAscii-starts (c ∷ s) h = ground (arith, h)

Spells-pairs : {s : Chars} {bs : Bytes} → Spells s bs → hex_pairs s ≡ ok bs
unfolding hex_pairs
Spells-pairs nothing = refl
Spells-pairs (digits {s} a b v w p q m) =
    rw (pair_digits a b v w s p q (IsAscii-starts s (Spells-IsAscii m))) (rw (Spells-pairs m))
Spells-pairs (signed {s} b w q m) =
    rw (pair_signed b w s q (IsAscii-starts s (Spells-IsAscii m))) (rw (Spells-pairs m))

even-Spells : {s : Chars} {bs : Bytes} → Spells s bs → length s % 2 ≡ 0
even-Spells nothing = refl
even-Spells (digits a b v w p q m) = omega (arith, even-Spells m)
even-Spells (signed b w q m) = omega (arith, even-Spells m)

-- `deserialize` returns bytes exactly for the texts that spell them, two characters for a byte: two
-- hexadecimal digits in either case, or a plus sign and one digit.
pub deserialize_iff : (s : Chars) (bs : Bytes) → (deserialize s ≡ ok bs) ↔ Spells s bs
unfolding deserialize
deserialize_iff s bs = (accepted, returned)
  where
    accepted : deserialize s ≡ ok bs → Spells s bs
    accepted h =
        let p : hex_pairs (as_bytes s) ≡ ok bs = ground (arith, h) in
        let m = pairs-Spells (as_bytes s) bs p in
        subst (λ t. Spells t bs) (IsAscii-as_bytes s (Spells-IsAscii m)) m

    returned : Spells s bs → deserialize s ≡ ok bs
    returned m =
        rw (as_bytes-IsAscii s (Spells-IsAscii m), (==_iff (length s % 2) 0).1 (even-Spells m))
          (Spells-pairs m)
