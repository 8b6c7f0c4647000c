-- ===== src/Examples/Keys.antt =====
-- Sealing, the vault key and the vault manifest.
use clipy_si_core.Common.{
  ℕ, ◌<◌, ◌≤◌, ◌≡◌, ◌≢◌, ◌↔◌, refl, ◌⊎◌, inl, true, [], ◌∷◌, ◌++◌, arith, length, take, replicate,
  length-replicate,
}
use clipy_si_core.Common.Int.{pos}
use clipy_si_core.Common.Result.{ok, err}
use clipy_si_core.Crypto.{key_len, nonce_len, local_seal, local_open, hkdf_subkey}
use clipy_si_core.Crypto.Laws.{local_open-local_seal}
use clipy_si_core.Error.{invalid_input, decrypt_failed, unsupported_format, kdf_failed}
use clipy_si_core.Examples.Formats.{clip, empty_rep, crowd, crowd-IsSized, crowd_fits}
use clipy_si_core.Examples.Models.{toy_crypto, toy-IsAuthentic, toy_json, bytes-replicate}
use clipy_si_core.Extern.Json.{ManifestText}
use clipy_si_core.Kdf.{KdfDescriptor, pbkdf2_hmac_sha256, derive_vault_key}
use clipy_si_core.Kdf.Laws.{iterations, derive_vault_key_iff}
use clipy_si_core.Record.{RecordPlaintext, VaultManifest}
use clipy_si_core.Record.Canonical.{encode_plaintext, max_representations}
use clipy_si_core.Record.Vault.{
  seal_record, open_record, make_vault_manifest, verify_passphrase, encode_vault_manifest,
  decode_vault_manifest, panic, verifier_plaintext,
}
use clipy_si_core.Record.Vault.Authentic.{open_record_iff, verify_passphrase_iff}
use clipy_si_core.Record.Canonical.Layout.{IsSized}
use clipy_si_core.Record.Vault.Errors.{IsSealOf, open_record_errors}
use clipy_si_core.Record.Canonical.Grammar.{IsDocument}
use clipy_si_core.Record.Vault.Devices.{unlock_vault}
use clipy_si_core.Record.Vault.Manifest.{decode_vault_manifest_panics}
use clipy_si_core.Record.Vault.Seal.{open_record-too_many}
use clipy_si_core.Text.{Bytes, as_bytes}

abbrev pub key : Bytes
key = replicate 32 7

abbrev pub nonce : Bytes
nonce = replicate 12 0

local_open-local_seal_example :
    (local_open toy_crypto key (nonce ++ (1 ∷ 2 ∷ []) ++ replicate 16 0) ≡ ok (1 ∷ 2 ∷ []))
    × (length (nonce ++ (1 ∷ 2 ∷ []) ++ replicate 16 0) ≡ 30)
    × (take nonce_len (nonce ++ (1 ∷ 2 ∷ []) ++ replicate 16 0) ≡ nonce)
unfolding local_seal
local_open-local_seal_example =
    local_open-local_seal toy_crypto key nonce (1 ∷ 2 ∷ [])
      (nonce ++ (1 ∷ 2 ∷ []) ++ replicate 16 0) refl

abbrev pub kdf : KdfDescriptor
kdf = record { kind = pbkdf2_hmac_sha256 1000; salt = 200 ∷ 7 ∷ []; kdf_version = 1 }

derive_vault_key_iff_example :
    ((derive_vault_key toy_crypto [] kdf ≡ err unsupported_format) ↔ (kdf.kdf_version ≢ 1))
    × ((derive_vault_key toy_crypto [] kdf ≡ err kdf_failed)
        ↔ ((kdf.kdf_version ≡ 1) × ((kdf.salt ≡ []) ⊎ (iterations kdf.kind ≡ 0))))
    × ((derive_vault_key toy_crypto [] kdf ≡ ok key)
        ↔ ((kdf.kdf_version ≡ 1) × (kdf.salt ≢ []) × (0 < iterations kdf.kind)))
unfolding as_bytes
derive_vault_key_iff_example = derive_vault_key_iff toy_crypto [] kdf

seal_any :
    (p : RecordPlaintext)
    → seal_record toy_crypto key nonce p ≡ ok (nonce ++ (encode_plaintext p ++ replicate 16 0))
unfolding seal_record local_seal hkdf_subkey
seal_any p = refl

abbrev pub sealed_clip : Bytes
sealed_clip = nonce ++ (encode_plaintext clip ++ replicate 16 0)

pub sealed : seal_record toy_crypto key nonce clip ≡ ok sealed_clip
sealed = seal_any clip

abbrev sealed_crowd : Bytes
sealed_crowd = nonce ++ (encode_plaintext crowd ++ replicate 16 0)

sealed_many : seal_record toy_crypto key nonce crowd ≡ ok sealed_crowd
sealed_many = seal_any crowd

open_record-too_many_example : open_record toy_crypto key sealed_crowd ≡ err unsupported_format
open_record-too_many_example =
    open_record-too_many toy_crypto key nonce sealed_crowd crowd crowd-IsSized
      (omega (arith, length-replicate 4097 empty_rep)) crowd_fits sealed_many

abbrev pub manifest : VaultManifest ℕ
manifest = record {
  format_version = 1;
  vault_id = 5;
  created_at = pos 1;
  kdf = kdf;
  verifier = nonce ++ (verifier_plaintext ++ replicate 16 0);
}

pub made : make_vault_manifest toy_crypto key 5 (pos 1) kdf nonce ≡ ok manifest
unfolding make_vault_manifest local_seal hkdf_subkey
made = refl

abbrev broken : ManifestText ℕ
broken = record {
  format_version = 1;
  vault_id = 5;
  created_at = pos 1;
  kind = pbkdf2_hmac_sha256 1000;
  salt = b'0' ∷ 0x20ac ∷ [];
  kdf_version = 1;
  verifier = [];
}

decode_vault_manifest_panics_example :
    decode_vault_manifest toy_json (toy_json.manifest_to_vec broken) ≡ err panic
unfolding as_bytes
decode_vault_manifest_panics_example =
    decode_vault_manifest_panics toy_json broken b'0' 0x20ac [] refl (omega arith) (omega arith)
      (inl (omega arith)) refl

unlock_vault_example :
    (decode_vault_manifest toy_json (encode_vault_manifest toy_json manifest) ≡ ok manifest)
    × (derive_vault_key toy_crypto [] kdf ≡ ok key)
    × (verify_passphrase toy_crypto key manifest ≡ true)
unfolding derive_vault_key
unlock_vault_example =
    unlock_vault toy_crypto toy_json [] kdf key 5 (pos 1) nonce manifest (ground arith)
      (bytes-replicate 12) refl made

open_record_iff_example : (open_record toy_crypto key sealed_clip ≡ ok clip) ↔ (
    (n : Bytes) × (seal_record toy_crypto key n clip ≡ ok sealed_clip)
    × IsSized clip
    × (length clip.representations ≤ max_representations))
unfolding encode_plaintext as_bytes
open_record_iff_example =
    open_record_iff toy_crypto toy-IsAuthentic key sealed_clip clip (ground arith) (ground arith)

verify_passphrase_iff_example :
    (verify_passphrase toy_crypto key manifest ≡ true)
    ↔ ((n : Bytes) × (make_vault_manifest toy_crypto key 5 (pos 1) kdf n ≡ ok manifest))
verify_passphrase_iff_example = verify_passphrase_iff toy_crypto toy-IsAuthentic key manifest refl

-- A seal of two bytes, which are no record.
abbrev no_record : Bytes
no_record = nonce ++ (1 ∷ 2 ∷ []) ++ replicate 16 0

open_record_errors_example :
    ((open_record toy_crypto key no_record ≡ err invalid_input) ↔ (length key ≢ key_len))
    × ((open_record toy_crypto key no_record ≡ err decrypt_failed)
        ↔ ((length key ≡ key_len) × ¬ ((m : Bytes) × IsSealOf toy_crypto key no_record m)))
    × ((open_record toy_crypto key no_record ≡ err unsupported_format) ↔ (
        (length key ≡ key_len)
        × (m : Bytes) × IsSealOf toy_crypto key no_record m
        × ¬ ((p : RecordPlaintext) × IsDocument m p)))
open_record_errors_example =
    open_record_errors toy_crypto key no_record toy-IsAuthentic (ground arith) (omega arith)
