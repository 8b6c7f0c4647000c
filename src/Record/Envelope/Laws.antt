-- ===== src/Record/Envelope/Laws.antt =====
-- The envelope: what decodes, and to what.
use clipy_si_core.Common.{
  ℕ, ◌%◌, ◌≤◌, ◌<◌, ◌≡◌, ap, ◌∙◌, true, not, none, Option-cases, inl, inr, [], ◌∷◌, ◌++◌, arith,
  length, append_assoc, ◌==◌, ◌&&◌, if◌then◌else◌,
}
use clipy_si_core.Common.Result.{ok, err, ◌>>=◌}
use clipy_si_core.Error.{CoreError, unsupported_format}
use clipy_si_core.Extern.Json.{JsonOps}
use clipy_si_core.Record.{RecordHeader, RecordEnvelope, record_format_version}
use clipy_si_core.Record.Words.{u32_mod, to_le_bytes}
use clipy_si_core.Record.Envelope.{
  encode_envelope, decode_envelope, decode_at, decode_body, is_some, same,
}
use clipy_si_core.Record.Envelope.Wire.{wire, body_of, finished, decode_wire}
use clipy_si_core.Text.{Bytes}

module _ {Uuid : Type 0} (json : JsonOps Uuid) where
  decode_encoded :
      (header : RecordHeader Uuid) (flag : ℕ) (tail : Bytes)
      → length (json.header_to_vec header) < u32_mod
      → decode_envelope json (wire (json.header_to_vec header) flag tail) ≡ (
          if header.format_version == record_format_version
          then body_of json flag tail >>= finished json header
          else err unsupported_format)
  decode_encoded header flag tail small =
      decode_wire json (json.header_to_vec header) header (json.header_inverse header) flag tail
        small

  -- Where the header's JSON is shorter than 2^32 bytes, an encoded envelope decodes to itself if
  -- its version is the frozen one and it has a body exactly when it is not deleted; every other
  -- envelope is refused as an unsupported format.
  pub decode_envelope-encode_envelope :
      (env : RecordEnvelope Uuid)
      → length (json.header_to_vec env.header) < u32_mod
      → decode_envelope json (encode_envelope json env) ≡ (
          if (env.header.format_version == record_format_version)
            && not (same (is_some env.body) env.header.deleted)
          then ok env
          else err unsupported_format)
  unfolding encode_envelope
  decode_envelope-encode_envelope env h = elim (Option-cases env.body) [
    | inl e ↦ rw e (decode_encoded env.header 0 [] h ∙ ground (arith, e))
    | inr (b, e) ↦ rw e (decode_encoded env.header 1 b h ∙ ground (arith, e))
  ]

  -- A tombstone of the frozen version, whose header's JSON is shorter than 2^32 bytes, decodes to
  -- itself whatever bytes are appended to its encoding.
  pub decode_envelope-tombstone_tail :
      (header : RecordHeader Uuid) (tail : Bytes)
      → length (json.header_to_vec header) < u32_mod
      → header.deleted ≡ true
      → header.format_version ≡ record_format_version
      → decode_envelope json
          (encode_envelope json (record { header = header; body = none }) ++ tail)
        ≡ ok (record { header = header; body = none })
  unfolding encode_envelope
  decode_envelope-tombstone_tail header tail h d v =
      ap (decode_envelope json) (joined) ∙ decode_encoded header 0 tail h ∙ ground (arith, d, v)
    where
      joined :
          encode_envelope json (record { header = header; body = none }) ++ tail
          ≡ wire (json.header_to_vec header) 0 tail
      joined =
          append_assoc (to_le_bytes (length (json.header_to_vec header) % u32_mod))
            (json.header_to_vec header ++ (0 ∷ [])) tail
          ∙ ap (λ s. to_le_bytes (length (json.header_to_vec header) % u32_mod) ++ s)
              (append_assoc (json.header_to_vec header) (0 ∷ []) tail)

  -- A decoded envelope has the frozen version, and a body exactly if it is not marked deleted; it
  -- was read from five bytes or more.
  pub decode_envelope-IsLive :
      (bytes : Bytes) (env : RecordEnvelope Uuid)
      → decode_envelope json bytes ≡ ok env
      → (env.header.format_version ≡ record_format_version)
        × (is_some env.body ≡ not env.header.deleted)
        × (5 ≤ length bytes)
  unfolding decode_envelope decode_at
  decode_envelope-IsLive bytes env h = ground arith

  pub decode_envelope-err :
      (bytes : Bytes) (e : CoreError) → decode_envelope json bytes ≡ err e → e ≡ unsupported_format
  unfolding decode_envelope decode_at decode_body
  decode_envelope-err bytes e h = ground arith
