-- ===== src/Examples/Formats.antt =====
-- Text, hex, the plaintext layout and the envelope.
use clipy_si_core.Common.{
  ℕ, zero, suc, ◌*◌, ◌<◌, ◌≡◌, ◌↔◌, refl, true, false, none, some, [], ◌∷◌, ◌++◌, arith, length,
  replicate, length-replicate, All,
}
use clipy_si_core.Common.Int.{pos}
use clipy_si_core.Common.Result.{ok, err}
use clipy_si_core.Examples.Models.{toy_json}
use clipy_si_core.Hex.{deserialize}
use clipy_si_core.Hex.Accepts.{Spells, nothing, digits, signed, deserialize_iff}
use clipy_si_core.Record.{RecordHeader, RecordEnvelope, RecordRepresentation, RecordPlaintext}
use clipy_si_core.Record.Canonical.{encode_plaintext}
use clipy_si_core.Record.Canonical.Layout.{
  IsSized, IsRepresentation, reps_layout, encode_plaintext-layout,
}
use clipy_si_core.Record.Envelope.{encode_envelope, decode_envelope}
use clipy_si_core.Record.Envelope.Laws.{
  decode_envelope-encode_envelope, decode_envelope-tombstone_tail,
}
use clipy_si_core.Record.Envelope.Grammar.{IsWire, decode_envelope_iff}
use clipy_si_core.Record.Words.{isize_mod}
use clipy_si_core.Error.{unsupported_format}
use clipy_si_core.Text.{Chars, IsByte, as_bytes}

-- "é€".
abbrev text : Chars
text = 0xe9 ∷ 0x20ac ∷ []

-- "+fFf".
deserialize_iff_example :
    (deserialize (43 ∷ 102 ∷ 70 ∷ 102 ∷ []) ≡ ok (15 ∷ 255 ∷ []))
    ↔ Spells (43 ∷ 102 ∷ 70 ∷ 102 ∷ []) (15 ∷ 255 ∷ [])
deserialize_iff_example = deserialize_iff (43 ∷ 102 ∷ 70 ∷ 102 ∷ []) (15 ∷ 255 ∷ [])

signed_text : deserialize (43 ∷ 102 ∷ 70 ∷ 102 ∷ []) ≡ ok (15 ∷ 255 ∷ [])
signed_text =
    (deserialize_iff (43 ∷ 102 ∷ 70 ∷ 102 ∷ []) (15 ∷ 255 ∷ [])).1
      (signed 102 15 (ground arith) (digits 70 102 15 15 (ground arith) (ground arith) nothing))

abbrev pub clip : RecordPlaintext
clip = record {
  title = b'h' ∷ b'i' ∷ [];
  primary_type = b't' ∷ [];
  source_bundle = some (0x20ac ∷ []);
  is_color_code = true;
  representations = (record { uttype = b'u' ∷ []; content = 1 ∷ 2 ∷ 3 ∷ [] }) ∷ [];
}

pub clip-IsSized : IsSized clip
unfolding as_bytes
clip-IsSized = record {
  title = ground arith;
  primary_type = ground arith;
  source_bundle = ground arith;
  representations = ground arith;
  count = omega arith;
}

pub clip_fits : length (encode_plaintext clip) < isize_mod
unfolding encode_plaintext as_bytes
clip_fits = ground arith

pub clip_bytes : All IsByte (encode_plaintext clip)
unfolding encode_plaintext as_bytes
clip_bytes = ground arith

-- The smallest representation, as often as it takes.
abbrev pub empty_rep : RecordRepresentation
empty_rep = record { uttype = []; content = [] }

abbrev pub crowd : RecordPlaintext
crowd = record {
  title = [];
  primary_type = [];
  source_bundle = none;
  is_color_code = false;
  representations = replicate 4097 empty_rep;
}

replicate-IsRepresentation : (n : ℕ) → All IsRepresentation (replicate n empty_rep)
unfolding as_bytes
replicate-IsRepresentation zero = ground arith
replicate-IsRepresentation (suc n) = (ground arith, replicate-IsRepresentation n)

length-reps_layout : (n : ℕ) → length (reps_layout (replicate n empty_rep) []) ≡ 8 * n
unfolding as_bytes
length-reps_layout zero = refl
length-reps_layout (suc n) = omega (arith, length-reps_layout n)

pub crowd-IsSized : IsSized crowd
unfolding as_bytes
crowd-IsSized = record {
  title = ground arith;
  primary_type = ground arith;
  source_bundle = ground arith;
  representations = replicate-IsRepresentation 4097;
  count = omega (arith, length-replicate 4097 empty_rep);
}

pub crowd_fits : length (encode_plaintext crowd) < isize_mod
unfolding as_bytes
crowd_fits =
    rw (encode_plaintext-layout crowd crowd-IsSized) (omega (arith, length-reps_layout 4097))

abbrev pub live_header : RecordHeader ℕ
live_header = record {
  format_version = 1;
  record_id = 7;
  origin_device_id = 8;
  hlc = record { wall_millis = pos 1000; counter = 0; node = 8 };
  created_at = pos 1;
  updated_at = pos 1;
  deleted = false;
  sync_hash = b'a' ∷ [];
}

abbrev dead_header : RecordHeader ℕ
dead_header = record live_header { deleted = true }

abbrev pub live : RecordEnvelope ℕ
live = record { header = live_header; body = some (9 ∷ []) }

decode_envelope-encode_envelope_example :
    decode_envelope toy_json (encode_envelope toy_json live) ≡ ok live
decode_envelope-encode_envelope_example =
    decode_envelope-encode_envelope toy_json live (omega arith)

decode_envelope-tombstone_tail_example :
    decode_envelope toy_json
      (encode_envelope toy_json (record { header = dead_header; body = none }) ++ 1 ∷ 2 ∷ [])
    ≡ ok (record { header = dead_header; body = none })
decode_envelope-tombstone_tail_example =
    decode_envelope-tombstone_tail toy_json dead_header (1 ∷ 2 ∷ []) (omega arith) refl refl

-- A header whose document is bytes.
abbrev byte_header : RecordHeader ℕ
byte_header = record live_header { hlc = record { wall_millis = pos 100; counter = 0; node = 8 } }

abbrev tombstone : RecordEnvelope ℕ
tombstone = record { header = record byte_header { deleted = true }; body = none }

decode_envelope_iff_example :
    ((decode_envelope toy_json (encode_envelope toy_json tombstone ++ 1 ∷ 2 ∷ []) ≡ ok tombstone)
      ↔ IsWire toy_json (encode_envelope toy_json tombstone ++ 1 ∷ 2 ∷ []) tombstone)
    × ((decode_envelope toy_json (encode_envelope toy_json tombstone ++ 1 ∷ 2 ∷ [])
          ≡ err unsupported_format)
        ↔ ¬ (
            (e : RecordEnvelope ℕ) × IsWire toy_json
              (encode_envelope toy_json tombstone ++ 1 ∷ 2 ∷ [])
              e))
unfolding encode_envelope
decode_envelope_iff_example =
    decode_envelope_iff toy_json (encode_envelope toy_json tombstone ++ 1 ∷ 2 ∷ []) tombstone
      (ground arith)
