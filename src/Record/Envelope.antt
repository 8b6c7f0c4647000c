-- ===== src/Record/Envelope.antt =====
-- encode_envelope and decode_envelope of crates/clipy-si-core/src/record/mod.rs.
pub mod Wire
pub mod Laws
pub mod Grammar
use clipy_si_core.Common.{
  ℕ, ◌+◌, ◌%◌, Bool, true, false, Option, none, some, List, [], ◌∷◌, ◌++◌, length, take, get_elem?,
  get_range, get_from, ltb, ◌==◌, if◌then◌else◌,
}
use clipy_si_core.Common.Result.{Result, ok, err, ◌>>=◌, ok_or, map_ok}
use clipy_si_core.Error.{CoreError, unsupported_format}
use clipy_si_core.Extern.Json.{JsonOps}
use clipy_si_core.Record.{RecordHeader, RecordEnvelope, record_format_version}
use clipy_si_core.Record.Words.{u32_mod, to_le_bytes, from_le_bytes, checked_add}
use clipy_si_core.Text.{Bytes}

abbrev body_bytes : Option Bytes → Bytes
body_bytes (some body) = 1 ∷ body
body_bytes none = 0 ∷ []

abbrev pub is_some : Option Bytes → Bool
is_some (some b) = true
is_some none = false

abbrev same : Bool → Bool → Bool
same true b = b
same false true = false
same false false = true

-- `match has_body`, with the body behind the flag at `header_end`.
decode_body : Bytes → ℕ → ℕ → Result (Option Bytes) CoreError
decode_body bytes header_end has_body =
    if has_body == 0
    then ok none
    else if has_body == 1
    then map_ok (ok_or (get_from bytes (header_end + 1)) unsupported_format) some
    else err unsupported_format

module _ {Uuid : Type 0} (json : JsonOps Uuid) where
  unfoldable pub encode_envelope : RecordEnvelope Uuid → Bytes
  encode_envelope env =
      let header_json = json.header_to_vec env.header in
      to_le_bytes (length header_json % u32_mod) ++ (header_json ++ body_bytes env.body)

  -- What `decode_envelope` does once it knows where the header ends.
  decode_at : Bytes → ℕ → Result (RecordEnvelope Uuid) CoreError
  unfolding decode_body
  decode_at bytes header_end = do
    header_bytes ← ok_or (get_range bytes 4 header_end) unsupported_format
    header ← ok_or (json.header_from_slice header_bytes) unsupported_format
    header ←
        if header.format_version == record_format_version then ok header else err unsupported_format
    has_body ← ok_or (get_elem? bytes header_end) unsupported_format
    body ← decode_body bytes header_end has_body
    if same (is_some body) header.deleted
        then err unsupported_format
        else ok (record { header = header; body = body })

  unfoldable pub decode_envelope : Bytes → Result (RecordEnvelope Uuid) CoreError
  unfolding decode_at
  decode_envelope bytes = do
    bytes ← if ltb (length bytes) 5 then err unsupported_format else ok bytes
    header_end ← ok_or (checked_add 4 (from_le_bytes (take 4 bytes))) unsupported_format
    decode_at bytes header_end
