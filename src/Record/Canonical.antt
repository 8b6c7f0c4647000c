-- ===== src/Record/Canonical.antt =====
-- crates/clipy-si-core/src/record/canonical.rs: the length-prefix layout of a record's plaintext.
-- The reader is a record that each operation returns advanced. `Layout`, `Reads` and `RoundTrip` are
-- about what the encoder wrote, `Takes` and `Unique` about any buffer.
pub mod Reads
pub mod Layout
pub mod RoundTrip
pub mod Takes
pub mod Unique
pub mod Grammar
mod Tests
use clipy_si_core.Common.{
  ℕ, zero, suc, ◌+◌, ◌%◌, Bool, true, false, not, Option, none, some, List, [], ◌∷◌, ◌++◌, length,
  get_elem?, get_range, ltb, ◌==◌, if◌then◌else◌,
}
use clipy_si_core.Common.Result.{Result, ok, err, ◌>>=◌, ok_or}
use clipy_si_core.Error.{CoreError, unsupported_format}
use clipy_si_core.Text.{Bytes, Chars, as_bytes, from_utf8}
use clipy_si_core.Record.{RecordRepresentation, RecordPlaintext}
use clipy_si_core.Record.Words.{u32_mod, to_le_bytes, from_le_bytes, checked_add}

abbrev pub max_representations : ℕ
max_representations = 4096

unfoldable pub put_bytes : Bytes → Bytes → Bytes
put_bytes out bytes = (out ++ to_le_bytes (length bytes % u32_mod)) ++ bytes

pub put_source_bundle : Bytes → Option Chars → Bytes
unfolding put_bytes
put_source_bundle out (some s) = put_bytes (out ++ 1 ∷ []) (as_bytes s)
put_source_bundle out none = out ++ 0 ∷ []

pub put_representations : Bytes → List RecordRepresentation → Bytes
unfolding put_bytes
put_representations out [] = out
put_representations out (rep ∷ reps) =
    put_representations (put_bytes (put_bytes out (as_bytes rep.uttype)) rep.content) reps

abbrev pub flag : Bool → ℕ
flag true = 1
flag false = 0

unfoldable pub encode_plaintext : RecordPlaintext → Bytes
unfolding put_bytes put_source_bundle put_representations
encode_plaintext p =
    let out = put_bytes (put_bytes [] (as_bytes p.title)) (as_bytes p.primary_type) in
    let out = put_source_bundle out p.source_bundle in
    let out = out ++ flag p.is_color_code ∷ [] in
    let out = out ++ to_le_bytes (length p.representations % u32_mod) in
    put_representations out p.representations

pub record Reader : Type 0 where
  pub buf : Bytes
  pub position : ℕ

abbrev pub Read {ℓ} : Type ℓ → Type ℓ
Read A = Result (A × Reader) CoreError

pub read_u8 : Reader → Read ℕ
read_u8 r = do
  b ← ok_or (get_elem? r.buf r.position) unsupported_format
  ok (b, record r { position = r.position + 1 })

-- The next `len` bytes.
pub read_slice : ℕ → Reader → Read Bytes
read_slice len r = do
  end ← ok_or (checked_add r.position len) unsupported_format
  slice ← ok_or (get_range r.buf r.position end) unsupported_format
  ok (slice, record r { position = end })

pub read_u32 : Reader → Read ℕ
unfolding read_slice
read_u32 r = do (slice, r) ← read_slice 4 r; ok (from_le_bytes slice, r)

pub read_bytes : Reader → Read Bytes
unfolding read_slice
read_bytes r = do (len, r) ← read_u32 r; read_slice len r

pub string_of : Bytes → Reader → Read Chars
string_of bytes r = do s ← ok_or (from_utf8 bytes) unsupported_format; ok (s, r)

pub read_string : Reader → Read Chars
unfolding string_of
read_string r = do (bytes, r) ← read_bytes r; string_of bytes r

-- `match b { 0 => .., 1 => .., _ => Err }`.
pub flag_of : ℕ → Reader → Read Bool
flag_of b r =
    if b == 0 then ok (false, r) else if b == 1 then ok (true, r) else err unsupported_format

pub read_flag : Reader → Read Bool
unfolding flag_of
read_flag r = do (b, r) ← read_u8 r; flag_of b r

pub optional_string : Bool → Reader → Read (Option Chars)
optional_string false r = ok (none, r)
optional_string true r = do (s, r) ← read_string r; ok (some s, r)

pub read_source_bundle : Reader → Read (Option Chars)
unfolding optional_string
read_source_bundle r = do (present, r) ← read_flag r; optional_string present r

pub read_representation : Reader → Read RecordRepresentation
read_representation r = do
  (uttype, r) ← read_string r
  (content, r) ← read_bytes r
  ok (record { uttype = uttype; content = content }, r)

-- The loop over `0..count`.
pub read_representations : ℕ → Reader → Read (List RecordRepresentation)
unfolding read_representation
read_representations zero r = ok ([], r)
read_representations (suc count) r = do
  (rep, r) ← read_representation r
  (reps, r) ← read_representations count r
  ok (rep ∷ reps, r)

-- `if count > MAX_REPRESENTATIONS`.
pub read_capped : ℕ → Reader → Read (List RecordRepresentation)
read_capped count r =
    if ltb max_representations count then err unsupported_format else read_representations count r

-- `if r.pos != buf.len()`.
pub finish : RecordPlaintext → Reader → Result RecordPlaintext CoreError
finish p r = if r.position == length r.buf then ok p else err unsupported_format

-- The count, the representations and the end of the buffer, once the four fields are read.
pub decode_count : Chars → Chars → Option Chars → Bool → Reader → Result RecordPlaintext CoreError
unfolding read_capped finish
decode_count title primary_type source_bundle is_color_code r = do
  (count, r) ← read_u32 r
  (representations, r) ← read_capped count r
  finish
      (record {
        title = title;
        primary_type = primary_type;
        source_bundle = source_bundle;
        is_color_code = is_color_code;
        representations = representations;
      })
      r

unfoldable pub decode_plaintext : Bytes → Result RecordPlaintext CoreError
unfolding decode_count read_u8 read_u32 read_bytes read_string read_flag read_source_bundle
    read_representations
decode_plaintext buf = do
  (title, r) ← read_string (record { buf = buf; position = 0 })
  (primary_type, r) ← read_string r
  (source_bundle, r) ← read_source_bundle r
  (is_color_code, r) ← read_flag r
  decode_count title primary_type source_bundle is_color_code r
