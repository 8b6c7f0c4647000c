-- ===== src/Ffi/Vault.antt =====
-- The exported calls of crates/clipy-si-core-ffi/src/lib.rs on keys, records and the vault.
use clipy_si_core.Common.{ℕ, Bool}
use clipy_si_core.Common.Int.{ℤ}
use clipy_si_core.Common.Result.{Result, ok, ◌>>=◌, map_err, map_ok}
use clipy_si_core.Crypto
use clipy_si_core.Extern.Crypto.{CryptoOps}
use clipy_si_core.Extern.Json.{JsonOps}
use clipy_si_core.Extern.Uuid.{UuidOps}
use clipy_si_core.Ffi.{
  CoreErrorFfi, from_core_error, RecordEnvelopeFfi, parse_uuid, from_envelope, to_envelope,
}
use clipy_si_core.Ffi.Records.{
  KdfDescriptorFfi, RecordPlaintextFfi, from_kind, to_descriptor, from_plaintext, to_plaintext,
}
use clipy_si_core.Kdf
use clipy_si_core.Record
use clipy_si_core.Record.Envelope
use clipy_si_core.Record.Vault
use clipy_si_core.Record.Vault.{Fault, failed, panic}
use clipy_si_core.Text.{Bytes, Chars}

-- A call that throws an error to the binding, or panics.
pub data CallFault : Type 0 where
  thrown : CoreErrorFfi → CallFault
  aborted : CallFault

abbrev pub call_fault : Fault → CallFault
call_fault (failed e) = thrown (from_core_error e)
call_fault panic = aborted

module _ (ops : CryptoOps) where
  unfoldable pub local_seal : Bytes → Bytes → Bytes → Result Bytes CoreErrorFfi
  local_seal key nonce plaintext =
      map_err (Crypto.local_seal ops key nonce plaintext) from_core_error

  unfoldable pub local_open : Bytes → Bytes → Result Bytes CoreErrorFfi
  local_open key combined = map_err (Crypto.local_open ops key combined) from_core_error

  unfoldable pub content_hash : Bytes → Bytes → Chars
  content_hash key payload = Crypto.content_hash ops key payload

  unfoldable pub derive_vault_key : Chars → KdfDescriptorFfi → Result Bytes CoreErrorFfi
  derive_vault_key passphrase kdf =
      map_err (Kdf.derive_vault_key ops passphrase (to_descriptor kdf)) from_core_error

  unfoldable pub compute_sync_hash : Bytes → Bytes → Result Chars CoreErrorFfi
  compute_sync_hash vault_key canonical_payload =
      map_err (Vault.compute_sync_hash ops vault_key canonical_payload) from_core_error

  unfoldable pub seal_record : Bytes → Bytes → RecordPlaintextFfi → Result Bytes CoreErrorFfi
  seal_record vault_key nonce plaintext =
      map_err (Vault.seal_record ops vault_key nonce (to_plaintext plaintext)) from_core_error

  unfoldable pub open_record : Bytes → Bytes → Result RecordPlaintextFfi CoreErrorFfi
  open_record vault_key body =
      map_err (map_ok (Vault.open_record ops vault_key body) from_plaintext) from_core_error

abbrev pub record_format_version : ℕ
record_format_version = Record.record_format_version

module _ {Uuid : Type 0} ⦃u : UuidOps Uuid⦄ (json : JsonOps Uuid) where
  -- Encodes, and decodes the bytes again to enforce the invariant of a tombstone.
  unfoldable pub encode_envelope : RecordEnvelopeFfi → Result Bytes CoreErrorFfi
  encode_envelope envelope = do
    env ← to_envelope envelope
    let bytes = Envelope.encode_envelope json env
    decoded ← map_err (Envelope.decode_envelope json bytes) from_core_error
    ok bytes

  unfoldable pub decode_envelope : Bytes → Result RecordEnvelopeFfi CoreErrorFfi
  decode_envelope bytes =
      map_err (map_ok (Envelope.decode_envelope json bytes) from_envelope) from_core_error

  module _ (ops : CryptoOps) where
    unfoldable pub make_vault_manifest :
        Bytes → Chars → ℤ → KdfDescriptorFfi → Bytes → Result Bytes CoreErrorFfi
    make_vault_manifest vault_key vault_id created_at kdf verifier_nonce = do
      id ← parse_uuid vault_id
      manifest ←
          map_err
            (Vault.make_vault_manifest ops vault_key id created_at (to_descriptor kdf)
              verifier_nonce)
            from_core_error
      ok (Vault.encode_vault_manifest json manifest)

    unfoldable pub verify_passphrase : Bytes → Bytes → Result Bool CallFault
    verify_passphrase vault_key manifest_json = do
      manifest ← map_err (Vault.decode_vault_manifest json manifest_json) call_fault
      ok (Vault.verify_passphrase ops vault_key manifest)

  -- The KDF descriptor in `vault.json`.
  unfoldable pub manifest_kdf : Bytes → Result KdfDescriptorFfi CallFault
  manifest_kdf manifest_json = do
    manifest ← map_err (Vault.decode_vault_manifest json manifest_json) call_fault
    ok (record {
      kind = from_kind manifest.kdf.kind;
      salt = manifest.kdf.salt;
      kdf_version = manifest.kdf.kdf_version;
    })
