-- ===== src/Redaction/Detector/Offsets.antt =====
-- byte_to_char_offsets against its description: how many scalars begin before an offset.
use clipy_si_core.Common.{
  ℕ, ◌+◌, ◌≤◌, ◌≡◌, refl, sym, ap, ap₂, ◌∙◌, List, [], ◌∷◌, arith, length, map, ltb, if◌then◌else◌,
}
use clipy_si_core.Redaction.Detector.{Walk, advance, saturate, offsets_from, byte_to_char_offsets}
use clipy_si_core.Text.{Chars, len_utf8}

-- How many scalars of a text that begins at `byte` begin before `target`.
unfoldable pub begun : ℕ → ℕ → Chars → ℕ
begun target byte [] = 0
begun target byte (c ∷ cs) =
    let n = begun target (byte + len_utf8 c) cs in if ltb byte target then 1 + n else n

abbrev pub Ascending : ℕ → List ℕ → Type 0
Ascending lo [] = Unit
Ascending lo (t ∷ ts) = (lo ≤ t) × Ascending t ts

pub none-begun : (target byte : ℕ) (cs : Chars) → target ≤ byte → begun target byte cs ≡ 0
unfolding begun
none-begun target byte [] h = refl
none-begun target byte (c ∷ cs) h =
    ground (arith, none-begun target (byte + len_utf8 c) cs (omega arith))

-- What the inner loop skips had begun, and what it leaves had not.
advance-begun :
    (target later idx byte : ℕ) (cs : Chars)
    → target ≤ later
    → let w = advance target idx byte cs in
      (idx + begun later byte cs ≡ w.char_idx + begun later w.byte w.left)
      × (begun target w.byte w.left ≡ 0)
unfolding advance begun
advance-begun target later idx byte [] h = ground arith
advance-begun target later idx byte (c ∷ cs) h = ground (
  arith,
  advance-begun target later (idx + 1) (byte + len_utf8 c) cs h,
  none-begun target (byte + len_utf8 c) cs,
)

map-agree :
    {f g : ℕ → ℕ} (lo : ℕ) (ts : List ℕ)
    → Ascending lo ts
    → ((u : ℕ) → lo ≤ u → f u ≡ g u)
    → map f ts ≡ map g ts
map-agree lo [] h e = refl
map-agree lo (t ∷ ts) h e =
    ap₂ ◌∷◌ (e t h.0) (map-agree t ts h.1 (λ u l. e u (omega (arith, h.0, l))))

offsets_from-begun :
    (w : Walk) (lo : ℕ) (ts : List ℕ)
    → Ascending lo ts
    → offsets_from w ts ≡ map (λ t. saturate (w.char_idx + begun t w.byte w.left)) ts
unfolding offsets_from
offsets_from-begun w lo [] h = refl
offsets_from-begun w lo (t ∷ ts) h =
    let w' = advance t w.char_idx w.byte w.left in
    ap₂ ◌∷◌
      (ap saturate (
        let (e, z) = advance-begun t t w.char_idx w.byte w.left (omega arith) in
        let r : w'.char_idx ≡ w.char_idx + begun t w.byte w.left = omega (arith, e, z) in r))
      (offsets_from-begun w' t ts h.1
        ∙ map-agree t ts h.1
            (λ u l. ap saturate (sym (advance-begun t u w.char_idx w.byte w.left l).0)))

-- On ascending byte offsets, the one-pass walk returns for each the number of scalars of the text
-- that begin before it, saturated at the largest `u32`.
pub byte_to_char_offsets_lem :
    (text : Chars) (ts : List ℕ)
    → Ascending 0 ts
    → byte_to_char_offsets text ts ≡ map (λ t. saturate (begun t 0 text)) ts
unfolding byte_to_char_offsets
byte_to_char_offsets_lem text ts h =
    offsets_from-begun (record { char_idx = 0; byte = 0; left = text }) 0 ts h
    ∙ map-agree 0 ts h
        (λ u l. let z : 0 + begun u 0 text ≡ begun u 0 text = omega arith in ap saturate z)

pub begun_more : (t u byte : ℕ) (cs : Chars) → t ≤ u → begun t byte cs ≤ begun u byte cs
unfolding begun
begun_more t u byte [] h = omega arith
begun_more t u byte (c ∷ cs) h = ground (arith, begun_more t u (byte + len_utf8 c) cs h)

pub begun_all : (t byte : ℕ) (cs : Chars) → begun t byte cs ≤ length cs
unfolding begun
begun_all t byte [] = omega arith
begun_all t byte (c ∷ cs) = ground (arith, begun_all t (byte + len_utf8 c) cs)

-- The offset of a scalar, as the matches carry it.
abbrev pub char_offset : Chars → ℕ → ℕ
char_offset text t = saturate (begun t 0 text)

pub char_offset_more : (text : Chars) (t u : ℕ) → t ≤ u → char_offset text t ≤ char_offset text u
char_offset_more text t u h = ground (arith, begun_more t u 0 text h)

pub char_offset_all : (text : Chars) (t : ℕ) → char_offset text t ≤ length text
char_offset_all text t = ground (arith, begun_all t 0 text)
