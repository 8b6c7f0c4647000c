-- ===== src/Extern/Json.antt =====
-- serde_json on the two JSON documents of the formats, with the code that serde derives. The fields
-- of `vault.json` that hold bytes are text there, which the reader gives to the function of
-- hexutil.rs that its attribute names.
use clipy_si_core.Common.{ℕ, ◌≡◌, Option, some}
use clipy_si_core.Common.Int.{ℤ}
use clipy_si_core.Common.Result.{Result, ok, ◌>>=◌, map_err}
use clipy_si_core.Hex.{HexError, odd_length, bad_digit, panics}
use clipy_si_core.Kdf.{KdfKind}
use clipy_si_core.Record.{RecordHeader, VaultManifest}
use clipy_si_core.Text.{Bytes, Chars}

-- `vault.json` with its byte fields as text.
pub record ManifestText (Uuid : Type 0) : Type 0 where
  pub format_version : ℕ
  pub vault_id : Uuid
  pub created_at : ℤ
  pub kind : KdfKind
  pub salt : Chars
  pub kdf_version : ℕ
  pub verifier : Chars

-- How reading a document ends without a value: with an error, or not at all.
pub data JsonFault : Type 0 where
  refused panicked : JsonFault

abbrev pub hex_fault : HexError → JsonFault
hex_fault odd_length = refused
hex_fault bad_digit = refused
hex_fault panics = panicked

-- The derived reader on a document of the derived writer: the byte fields in the order written.
abbrev pub read_manifest :
    {Uuid : Type 0}
    → (Chars → Result Bytes HexError)
    → ManifestText Uuid
    → Result (VaultManifest Uuid) JsonFault
read_manifest read t = do
  salt ← map_err (read t.salt) hex_fault
  verifier ← map_err (read t.verifier) hex_fault
  ok (record {
    format_version = t.format_version;
    vault_id = t.vault_id;
    created_at = t.created_at;
    kdf = record { kind = t.kind; salt = salt; kdf_version = t.kdf_version };
    verifier = verifier;
  })

pub record JsonOps (Uuid : Type 0) : Type 0 where
  pub header_to_vec : RecordHeader Uuid → Bytes
  pub header_from_slice : Bytes → Option (RecordHeader Uuid)
  pub manifest_to_vec : ManifestText Uuid → Bytes
  pub manifest_from_slice :
      (Chars → Result Bytes HexError) → Bytes → Result (VaultManifest Uuid) JsonFault
  pub header_inverse : (h : RecordHeader Uuid) → header_from_slice (header_to_vec h) ≡ some h
  pub manifest_inverse :
      (read : Chars → Result Bytes HexError) (t : ManifestText Uuid)
      → manifest_from_slice read (manifest_to_vec t) ≡ read_manifest read t
