-- ===== src/Record/Vault.antt =====
-- The operations of crates/clipy-si-core/src/record/mod.rs under the vault key, and `vault.json`.
-- The code overwrites its copies of the keys; they are local, so nothing of that is seen here.
pub mod Seal
pub mod Manifest
pub mod Devices
pub mod Authentic
pub mod Errors
use clipy_si_core.Common.{ℕ, Bool, true, false, List, length, eq_bytes, ◌==◌, if◌then◌else◌}
use clipy_si_core.Common.Int.{ℤ}
use clipy_si_core.Common.Result.{Result, ok, err, ◌>>=◌, map_err}
use clipy_si_core.Crypto.{key_len, local_seal, local_open, content_hash, hkdf_subkey}
use clipy_si_core.Error.{CoreError, invalid_input, unsupported_format}
use clipy_si_core.Extern.Crypto.{CryptoOps}
use clipy_si_core.Extern.Json.{JsonOps, JsonFault, refused, panicked, ManifestText}
use clipy_si_core.Hex.{hex_lower, deserialize}
use clipy_si_core.Kdf.{KdfDescriptor}
use clipy_si_core.Record.{RecordPlaintext, VaultManifest, vault_format_version}
use clipy_si_core.Record.Canonical.{encode_plaintext, decode_plaintext}
use clipy_si_core.Text.{Bytes, Chars, ascii}

abbrev pub info_cclip : Bytes
info_cclip = ascii "clipysi/v1/cclip"

abbrev pub info_dedupe : Bytes
info_dedupe = ascii "clipysi/v1/dedupe"

abbrev pub verifier_plaintext : Bytes
verifier_plaintext = ascii "clipysi-vault-verifier-v1"

as_key32 : Bytes → Result Bytes CoreError
as_key32 key = if length key == key_len then ok key else err invalid_input

-- `matches!(opened, Ok(pt) if pt == expected)`.
opens_to : Result Bytes CoreError → Bytes → Bool
opens_to (ok pt) expected = eq_bytes pt expected
opens_to (err e) expected = false

module _ (ops : CryptoOps) where
  unfoldable pub seal_record : Bytes → Bytes → RecordPlaintext → Result Bytes CoreError
  unfolding as_key32
  seal_record vault_key nonce plaintext = do
    master ← as_key32 vault_key
    let cclip = hkdf_subkey ops master info_cclip
    local_seal ops cclip nonce (encode_plaintext plaintext)

  unfoldable pub open_record : Bytes → Bytes → Result RecordPlaintext CoreError
  unfolding as_key32
  open_record vault_key body = do
    master ← as_key32 vault_key
    let cclip = hkdf_subkey ops master info_cclip
    opened ← local_open ops cclip body
    decode_plaintext opened

  unfoldable pub compute_sync_hash : Bytes → Bytes → Result Chars CoreError
  unfolding as_key32
  compute_sync_hash vault_key canonical_payload = do
    master ← as_key32 vault_key
    let dedupe = hkdf_subkey ops master info_dedupe
    ok (content_hash ops dedupe canonical_payload)

  unfoldable pub make_vault_manifest :
      {Uuid : Type 0}
      → Bytes
      → Uuid
      → ℤ
      → KdfDescriptor
      → Bytes
      → Result (VaultManifest Uuid) CoreError
  unfolding as_key32
  make_vault_manifest vault_key vault_id created_at kdf verifier_nonce = do
    master ← as_key32 vault_key
    let cclip = hkdf_subkey ops master info_cclip
    verifier ← local_seal ops cclip verifier_nonce verifier_plaintext
    ok (record {
      format_version = vault_format_version;
      vault_id = vault_id;
      created_at = created_at;
      kdf = kdf;
      verifier = verifier;
    })

  verify_master : {Uuid : Type 0} → Result Bytes CoreError → VaultManifest Uuid → Bool
  unfolding opens_to
  verify_master (ok master) manifest =
      opens_to (local_open ops (hkdf_subkey ops master info_cclip) manifest.verifier)
        verifier_plaintext
  verify_master (err e) manifest = false

  unfoldable pub verify_passphrase : {Uuid : Type 0} → Bytes → VaultManifest Uuid → Bool
  unfolding as_key32 verify_master
  verify_passphrase vault_key manifest = verify_master (as_key32 vault_key) manifest

-- A call that returns an error or does not return.
pub data Fault : Type 0 where
  failed : CoreError → Fault
  panic : Fault

abbrev json_fault : JsonFault → Fault
json_fault refused = failed unsupported_format
json_fault panicked = panic

abbrev manifest_text : {Uuid : Type 0} → VaultManifest Uuid → ManifestText Uuid
manifest_text m = record {
  format_version = m.format_version;
  vault_id = m.vault_id;
  created_at = m.created_at;
  kind = m.kdf.kind;
  salt = hex_lower m.kdf.salt;
  kdf_version = m.kdf.kdf_version;
  verifier = hex_lower m.verifier;
}

module _ {Uuid : Type 0} (json : JsonOps Uuid) where
  unfoldable pub encode_vault_manifest : VaultManifest Uuid → Bytes
  encode_vault_manifest manifest = json.manifest_to_vec (manifest_text manifest)

  unfoldable pub decode_vault_manifest : Bytes → Result (VaultManifest Uuid) Fault
  decode_vault_manifest bytes = do
    manifest ← map_err (json.manifest_from_slice deserialize bytes) json_fault
    if manifest.format_version == vault_format_version
        then ok manifest
        else err (failed unsupported_format)
