-- ===== src/Record/Canonical/RoundTrip.antt =====
-- decode_plaintext on what encode_plaintext wrote.
use clipy_si_core.Common.{
  ℕ, ◌≤◌, ◌<◌, ◌≡◌, refl, ap, ◌∙◌, Option, none, some, true, false, lt→ltb, ==_iff, List, [], ◌∷◌,
  ◌++◌, arith, length, length-drop, All, OnSome, ◌==◌, ltb,
}
use clipy_si_core.Common.Result.{ok, err}
use clipy_si_core.Error.{unsupported_format}
use clipy_si_core.Text.{Bytes, Chars, as_bytes}
use clipy_si_core.Record.{RecordRepresentation, RecordPlaintext}
use clipy_si_core.Record.Words.{isize_mod, to_le_bytes}
use clipy_si_core.Record.Canonical.{
  Reader, max_representations, read_string, read_source_bundle, read_representations,
  encode_plaintext, decode_count, decode_plaintext,
}
use clipy_si_core.Record.Canonical.Reads.{
  rest, IsInside, Returns, read_u32-Returns, read_bytes-Returns, read_string-Returns,
  read_flag-Returns,
}
use clipy_si_core.Record.Canonical.Layout.{
  frame, bundle_layout, reps_layout, IsField, IsRepresentation, IsSized, encode_plaintext-layout,
}

field-Returns :
    (r : Reader) (s : Chars) (t : Bytes)
    → IsField s
    → IsInside r
    → rest r ≡ frame (as_bytes s) t
    → Returns (read_string r) s t r.buf
field-Returns r s t f i e = read_string-Returns r s t f.0 f.1 i e

bundle-Returns :
    (r : Reader) (o : Option Chars) (t : Bytes)
    → OnSome IsField o
    → IsInside r
    → rest r ≡ bundle_layout o t
    → Returns (read_source_bundle r) o t r.buf
unfolding read_source_bundle
bundle-Returns r none t f i e =
    let (q, m, et, iq, eb) = read_flag-Returns r false t i e in (q, rw m, et, iq, eb)
bundle-Returns r (some s) t f i e =
    let (q, m, et, iq, eb) = read_flag-Returns r true (frame (as_bytes s) t) i e in
    let (q', m', et', iq', eb') = field-Returns q s t f iq et in
    (q', rw m (rw m'), et', iq', eb' ∙ eb)

reps-Returns :
    (r : Reader) (reps : List RecordRepresentation) (t : Bytes)
    → All IsRepresentation reps
    → IsInside r
    → rest r ≡ reps_layout reps t
    → Returns (read_representations (length reps) r) reps t r.buf
unfolding read_representations
reps-Returns r [] t f i e = (r, refl, e, i, refl)
reps-Returns r (rep ∷ reps) t f i e =
    let (q, m, et, iq, eb) =
      field-Returns r rep.uttype (frame rep.content (reps_layout reps t)) f.0.0 i e in
    let (q', m', et', iq', eb') =
      read_bytes-Returns q rep.content (reps_layout reps t) f.0.1 iq et in
    let (q'', m'', et'', iq'', eb'') = reps-Returns q' reps t f.1 iq' et' in
    (q'', rw m (rw m' (rw m'')), et'', iq'', eb'' ∙ eb' ∙ eb)

at_end : (r : Reader) → IsInside r → rest r ≡ [] → (r.position == length r.buf) ≡ true
at_end r i e =
    (==_iff r.position (length r.buf)).1 (omega (arith, ap length e, length-drop r.position r.buf))

not-ltb : (a b : ℕ) → b ≤ a → ltb a b ≡ false
not-ltb a b h = ground arith

module _ (p : RecordPlaintext) (s : IsSized p)
    (bound : length (encode_plaintext p) < isize_mod) where
  buf : Bytes
  buf = encode_plaintext p

  reps : Bytes
  reps = to_le_bytes (length p.representations) ++ reps_layout p.representations []

  -- What follows the strings.
  Ready : Reader → Type 0
  Ready r = (rest r ≡ reps) × IsInside r × (r.buf ≡ buf)

  -- The reads before the representations succeed, whatever is done with their results.
  decode_prefix :
      (r : Reader) × Ready r
      × (decode_plaintext buf
          ≡ decode_count p.title p.primary_type p.source_bundle p.is_color_code r)
  unfolding decode_plaintext Ready reps buf
  decode_prefix =
      let e0 = encode_plaintext-layout p s in
      let (q1, m1, e1, i1, b1) =
        field-Returns (record { buf = buf; position = 0 }) p.title _ s.title (omega arith, bound)
          e0 in
      let (q2, m2, e2, i2, b2) = field-Returns q1 p.primary_type _ s.primary_type i1 e1 in
      let (q3, m3, e3, i3, b3) = bundle-Returns q2 p.source_bundle _ s.source_bundle i2 e2 in
      let (q4, m4, e4, i4, b4) = read_flag-Returns q3 p.is_color_code _ i3 e3 in
      (q4, (e4, i4, b4 ∙ b3 ∙ b2 ∙ b1), rw m1 (rw m2 (rw m3 (rw m4))))

-- Decoding inverts encoding, for valid strings, lengths that fit a `u32`, at most 4096
-- representations, and an encoding that fits the address space.
pub decode_plaintext-encode_plaintext :
    (p : RecordPlaintext)
    → IsSized p
    → length p.representations ≤ max_representations
    → length (encode_plaintext p) < isize_mod
    → decode_plaintext (encode_plaintext p) ≡ ok p
unfolding decode_count buf Ready reps
decode_plaintext-encode_plaintext p s few bound =
    let (q, (e, i, b), m) = decode_prefix p s bound in
    let (q5, m5, e5, i5, b5) = read_u32-Returns q (length p.representations) _ s.count i e in
    let (q6, m6, e6, i6, b6) = reps-Returns q5 p.representations [] s.representations i5 e5 in
    m ∙ rw (m5, not-ltb _ _ few) (rw m6 (rw (at_end q6 i6 e6)))

-- A record with more representations than the reader allows is encoded all the same, and its bytes
-- are then refused: what was sealed cannot be opened.
pub decode_plaintext-too_many :
    (p : RecordPlaintext)
    → IsSized p
    → max_representations < length p.representations
    → length (encode_plaintext p) < isize_mod
    → decode_plaintext (encode_plaintext p) ≡ err unsupported_format
unfolding decode_count buf Ready reps
decode_plaintext-too_many p s many bound =
    let (q, (e, i, b), m) = decode_prefix p s bound in
    let (q5, m5, e5, i5, b5) = read_u32-Returns q (length p.representations) _ s.count i e in
    m ∙ rw (m5, lt→ltb max_representations (length p.representations) many)
