-- ===== src/Ffi.antt =====
-- crates/clipy-si-core-ffi/src/lib.rs: errors, stamps, headers and envelopes at the binding. The
-- other mirrors and the calls are in the children.
pub mod Records
pub mod Redaction
pub mod Vault
pub mod Sync
pub mod Laws
pub mod Wire
pub mod Unlock
use clipy_si_core.Common.{ℕ, Bool, Option, none, some, List}
use clipy_si_core.Common.Int.{ℤ}
use clipy_si_core.Common.Result.{Result, ok, err, ◌>>=◌, map_ok}
use clipy_si_core.Error.{CoreError}
use clipy_si_core.Error
use clipy_si_core.Extern.Uuid.{UuidOps}
use clipy_si_core.Record.{Hlc, RecordHeader, RecordEnvelope}
use clipy_si_core.Text.{Bytes, Chars, ascii}

pub data CoreErrorFfi : Type 0 where
  invalid_input decrypt_failed unsupported_format kdf_failed unknown : CoreErrorFfi

-- Its `Display`: `{self:?}`.
abbrev debug_name : CoreErrorFfi → Bytes
debug_name invalid_input = ascii "InvalidInput"
debug_name decrypt_failed = ascii "DecryptFailed"
debug_name unsupported_format = ascii "UnsupportedFormat"
debug_name kdf_failed = ascii "KdfFailed"
debug_name unknown = ascii "Unknown"

abbrev pub from_core_error : CoreError → CoreErrorFfi
from_core_error Error.invalid_input = invalid_input
from_core_error Error.decrypt_failed = decrypt_failed
from_core_error Error.unsupported_format = unsupported_format
from_core_error Error.kdf_failed = kdf_failed

-- `Option::map(..).transpose()`.
abbrev pub transpose {ℓ κ μ} :
    {A : Type ℓ} {B : Type κ} {E : Type μ} → (A → Result B E) → Option A → Result (Option B) E
transpose f none = ok none
transpose f (some a) = map_ok (f a) some

-- Stamp, header and envelope with UUIDs as text.
pub record HlcFfi : Type 0 where
  pub wall_millis : ℤ
  pub counter : ℕ
  pub node : Chars

pub record RecordHeaderFfi : Type 0 where
  pub format_version : ℕ
  pub record_id : Chars
  pub origin_device_id : Chars
  pub hlc : HlcFfi
  pub created_at : ℤ
  pub updated_at : ℤ
  pub deleted : Bool
  pub sync_hash : Chars

pub record RecordEnvelopeFfi : Type 0 where
  pub header : RecordHeaderFfi
  pub body : Option Bytes

abbrev pub parsed {ℓ} : {A : Type ℓ} → Option A → Result A CoreErrorFfi
parsed (some a) = ok a
parsed none = err invalid_input

module _ {Uuid : Type 0} ⦃u : UuidOps Uuid⦄ where
  abbrev pub parse_uuid : Chars → Result Uuid CoreErrorFfi
  parse_uuid s = parsed (u.parse_str s)

  abbrev pub from_hlc : Hlc Uuid → HlcFfi
  from_hlc h = record {
    wall_millis = h.wall_millis;
    counter = h.counter;
    node = u.to_string h.node;
  }

  abbrev pub to_hlc : HlcFfi → Result (Hlc Uuid) CoreErrorFfi
  to_hlc h = do
    node ← parse_uuid h.node
    ok (record { wall_millis = h.wall_millis; counter = h.counter; node = node })

  abbrev pub from_header : RecordHeader Uuid → RecordHeaderFfi
  from_header h = record {
    format_version = h.format_version;
    record_id = u.to_string h.record_id;
    origin_device_id = u.to_string h.origin_device_id;
    hlc = from_hlc h.hlc;
    created_at = h.created_at;
    updated_at = h.updated_at;
    deleted = h.deleted;
    sync_hash = h.sync_hash;
  }

  abbrev pub to_header : RecordHeaderFfi → Result (RecordHeader Uuid) CoreErrorFfi
  to_header h = do
    record_id ← parse_uuid h.record_id
    origin_device_id ← parse_uuid h.origin_device_id
    hlc ← to_hlc h.hlc
    ok (record {
      format_version = h.format_version;
      record_id = record_id;
      origin_device_id = origin_device_id;
      hlc = hlc;
      created_at = h.created_at;
      updated_at = h.updated_at;
      deleted = h.deleted;
      sync_hash = h.sync_hash;
    })

  abbrev pub from_envelope : RecordEnvelope Uuid → RecordEnvelopeFfi
  from_envelope e = record { header = from_header e.header; body = e.body }

  abbrev pub to_envelope : RecordEnvelopeFfi → Result (RecordEnvelope Uuid) CoreErrorFfi
  to_envelope e = do header ← to_header e.header; ok (record { header = header; body = e.body })
