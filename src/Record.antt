-- ===== src/Record.antt =====
-- crates/clipy-si-core/src/record/mod.rs: the data types of the record and vault formats.
-- An `i64` is an integer of `Common.Int`, a `u32` a number, a `Vec<u8>` a list of numbers and a
-- `String` the list of its Unicode scalars.
pub mod Words
pub mod Canonical
pub mod Envelope
pub mod Vault
mod Tests
use clipy_si_core.Common.{ℕ, ◌<◌, Bool, Option, List}
use clipy_si_core.Common.Int.{ℤ, IsI64}
use clipy_si_core.Text.{Bytes, Chars}
use clipy_si_core.Kdf.{KdfDescriptor}

-- Hybrid Logical Clock stamp.
pub record Hlc (Uuid : Type 0) : Type 0 where
  pub wall_millis : ℤ
  pub counter : ℕ
  pub node : Uuid

-- The ranges of the machine types.
pub record IsStamp {Uuid : Type 0} (h : Hlc Uuid) : Type 0 where
  pub wall : IsI64 h.wall_millis
  pub count : h.counter < 0x1_0000_0000

-- Plaintext routing/merge header.
pub record RecordHeader (Uuid : Type 0) : Type 0 where
  pub format_version : ℕ
  pub record_id : Uuid
  pub origin_device_id : Uuid
  pub hlc : Hlc Uuid
  pub created_at : ℤ
  pub updated_at : ℤ
  pub deleted : Bool
  pub sync_hash : Chars

-- One record: header and optional sealed body; no body is a tombstone.
pub record RecordEnvelope (Uuid : Type 0) : Type 0 where
  pub header : RecordHeader Uuid
  pub body : Option Bytes

-- `vault.json`: how to derive the vault key again, and a verifier.
pub record VaultManifest (Uuid : Type 0) : Type 0 where
  pub format_version : ℕ
  pub vault_id : Uuid
  pub created_at : ℤ
  pub kdf : KdfDescriptor
  pub verifier : Bytes

-- One participating device.
pub record DeviceDescriptor (Uuid : Type 0) : Type 0 where
  pub format_version : ℕ
  pub device_id : Uuid
  pub display_name : Chars
  pub platform : Chars
  pub last_seen : ℤ

-- A secondary representation captured alongside the primary.
pub record RecordRepresentation : Type 0 where
  pub uttype : Chars
  pub content : Bytes

-- The plaintext content of a record.
pub record RecordPlaintext : Type 0 where
  pub title : Chars
  pub primary_type : Chars
  pub source_bundle : Option Chars
  pub is_color_code : Bool
  pub representations : List RecordRepresentation

abbrev pub record_format_version : ℕ
record_format_version = 1

abbrev pub vault_format_version : ℕ
vault_format_version = 1

abbrev pub device_format_version : ℕ
device_format_version = 1
