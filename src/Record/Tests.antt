-- ===== src/Record/Tests.antt =====
-- The unit tests of crates/clipy-si-core/src/record/mod.rs that hold of any ciphers and any JSON.
-- Where the code unwraps a sealed box, a test is told the box that sealing returned, and it assumes
-- of the parameters only their laws. The test that a body hides its content and those that another
-- key is refused rest on the cipher itself and are left out.
use clipy_si_core.Common.{◌<◌, ◌≡◌, true, false, none, some, [], ◌∷◌, length, replicate, arith}
use clipy_si_core.Common.Int.{pos}
use clipy_si_core.Common.Result.{ok, err}
use clipy_si_core.Error.{unsupported_format}
use clipy_si_core.Extern.Crypto.{CryptoOps}
use clipy_si_core.Extern.Json.{JsonOps}
use clipy_si_core.Record.{RecordHeader, RecordEnvelope, RecordPlaintext, record_format_version}
use clipy_si_core.Record.Canonical.{encode_plaintext}
use clipy_si_core.Record.Canonical.Layout.{IsSized}
use clipy_si_core.Record.Envelope.{encode_envelope, decode_envelope}
use clipy_si_core.Record.Envelope.Laws.{decode_envelope-encode_envelope}
use clipy_si_core.Record.Vault.{seal_record, open_record}
use clipy_si_core.Record.Vault.Seal.{open_record-seal_record}
use clipy_si_core.Record.Words.{u32_mod, isize_mod}
use clipy_si_core.Text.{Bytes, ascii, as_bytes}

abbrev test_key : Bytes
test_key = replicate 32 0x2a

abbrev test_nonce : Bytes
test_nonce = replicate 12 0

abbrev sample_plaintext : RecordPlaintext
sample_plaintext = record {
  title = ascii "secret token ghp_xxx";
  primary_type = ascii "public.utf8-plain-text";
  source_bundle = some (ascii "com.example.app");
  is_color_code = false;
  representations =
      (record { uttype = ascii "public.utf8-plain-text"; content = ascii "secret token ghp_xxx" })
      ∷ [];
}

sample-IsSized : IsSized sample_plaintext
unfolding as_bytes
sample-IsSized = record {
  title = ground arith;
  primary_type = ground arith;
  source_bundle = ground arith;
  representations = ground arith;
  count = omega arith;
}

sample_fits : length (encode_plaintext sample_plaintext) < isize_mod
unfolding encode_plaintext as_bytes
sample_fits = ground arith

module _ (ops : CryptoOps) where
  abbrev RecordSealOpenRoundtrip : Bytes → Type 0
  RecordSealOpenRoundtrip body = open_record ops test_key body ≡ ok sample_plaintext

  roundtrip_passes :
      (body : Bytes)
      → seal_record ops test_key test_nonce sample_plaintext ≡ ok body
      → RecordSealOpenRoundtrip body
  roundtrip_passes body h =
      open_record-seal_record ops test_key test_nonce body sample_plaintext sample-IsSized
        (omega arith) sample_fits h

module _ {Uuid : Type 0} (json : JsonOps Uuid) (id : Uuid) where
  abbrev test_header : RecordHeader Uuid
  test_header = record {
    format_version = record_format_version;
    record_id = id;
    origin_device_id = id;
    hlc = record { wall_millis = pos 0; counter = 0; node = id };
    created_at = pos 0;
    updated_at = pos 0;
    deleted = false;
    sync_hash = ascii "00";
  }

  abbrev tomb_header : RecordHeader Uuid
  tomb_header = record test_header { deleted = true }

  -- The JSON of a header is short.
  abbrev Short : RecordHeader Uuid → Type 0
  Short h = length (json.header_to_vec h) < u32_mod

  abbrev EnvelopeRoundtripLiveAndTombstone : Bytes → Type 0
  EnvelopeRoundtripLiveAndTombstone body =
      let live : RecordEnvelope Uuid = record { header = test_header; body = some body } in
      let tomb : RecordEnvelope Uuid = record { header = tomb_header; body = none } in
      (decode_envelope json (encode_envelope json live) ≡ ok live)
      × (decode_envelope json (encode_envelope json tomb) ≡ ok tomb)

  abbrev DecodeRejectsBodyTombstoneMismatch : Type 0
  DecodeRejectsBodyTombstoneMismatch =
      let bad : RecordEnvelope Uuid = record {
        header = tomb_header;
        body = some (replicate 28 0);
      } in
      decode_envelope json (encode_envelope json bad) ≡ err unsupported_format

  envelopes_pass :
      (body : Bytes)
      → Short test_header
      → Short tomb_header
      → EnvelopeRoundtripLiveAndTombstone body × DecodeRejectsBodyTombstoneMismatch
  envelopes_pass body a b = (
    (
      decode_envelope-encode_envelope json (record { header = test_header; body = some body }) a,
      decode_envelope-encode_envelope json (record { header = tomb_header; body = none }) b,
    ),
    decode_envelope-encode_envelope json
        (record { header = tomb_header; body = some (replicate 28 0) }) b,
  )
