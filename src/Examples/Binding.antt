-- ===== src/Examples/Binding.antt =====
-- The binding's calls.
use clipy_si_core.Common.{ℕ, ◌≡◌, refl, false, some, [], ◌∷◌, arith}
use clipy_si_core.Common.Int.{pos}
use clipy_si_core.Common.Result.{ok}
use clipy_si_core.Crypto.{local_seal, hkdf_subkey}
use clipy_si_core.Examples.Formats.{live, live_header, clip, clip-IsSized, clip_fits}
use clipy_si_core.Examples.Keys.{key, nonce, manifest, sealed, sealed_clip}
use clipy_si_core.Examples.Models.{toy_crypto, toy_json}
use clipy_si_core.Extern.Crypto.{CryptoOps}
use clipy_si_core.Extern.Uuid.{number_uuid}
use clipy_si_core.Ffi.{RecordEnvelopeFfi, from_envelope}
use clipy_si_core.Ffi.Records.{
  KdfDescriptorFfi, pbkdf2_hmac_sha256, RecordPlaintextFfi, from_plaintext,
}
use clipy_si_core.Ffi.Vault
use clipy_si_core.Ffi.Wire.{open_record-decode_envelope_ffi}
use clipy_si_core.Record.{RecordEnvelope}
use clipy_si_core.Kdf.{derive_vault_key}
use clipy_si_core.Record.Envelope
use clipy_si_core.Record.Envelope.{is_some}
use clipy_si_core.Record.Envelope.Laws.{decode_envelope-encode_envelope}
use clipy_si_core.Record.Vault.{encode_vault_manifest, make_vault_manifest}

abbrev live_ffi : RecordEnvelopeFfi
live_ffi = from_envelope ⦃u = number_uuid⦄ live

encoded :
    Vault.encode_envelope ⦃u = number_uuid⦄ toy_json live_ffi
    ≡ ok (Envelope.encode_envelope toy_json live)
unfolding Vault.encode_envelope Envelope.decode_envelope Envelope.encode_envelope
encoded = ground arith

abbrev kdf_ffi : KdfDescriptorFfi
kdf_ffi = record { kind = pbkdf2_hmac_sha256 1000; salt = 200 ∷ 7 ∷ []; kdf_version = 1 }

-- A normal form that two passphrases share.
abbrev folding : CryptoOps
folding = record toy_crypto { nfc = λ s. [] }

written :
    Vault.make_vault_manifest ⦃u = number_uuid⦄ toy_json folding key (5 ∷ []) (pos 1) kdf_ffi nonce
    ≡ ok (encode_vault_manifest toy_json manifest)
unfolding Vault.make_vault_manifest make_vault_manifest local_seal hkdf_subkey
written = refl

derived : Vault.derive_vault_key folding (3 ∷ []) kdf_ffi ≡ ok key
unfolding Vault.derive_vault_key derive_vault_key
derived = refl

abbrev clip_ffi : RecordPlaintextFfi
clip_ffi = from_plaintext clip

abbrev carrier : RecordEnvelope ℕ
carrier = record { header = live_header; body = some sealed_clip }

sealed_ffi : Vault.seal_record toy_crypto key nonce clip_ffi ≡ ok sealed_clip
unfolding Vault.seal_record
sealed_ffi = rw sealed refl

sent :
    Vault.encode_envelope ⦃u = number_uuid⦄ toy_json (from_envelope ⦃u = number_uuid⦄ carrier)
    ≡ ok (Envelope.encode_envelope toy_json carrier)
unfolding Vault.encode_envelope
sent =
    let e : Envelope.decode_envelope toy_json (Envelope.encode_envelope toy_json carrier)
        ≡ ok carrier =
      decode_envelope-encode_envelope toy_json carrier (omega arith) in
    rw e refl

open_record-decode_envelope_ffi_example :
    (d : RecordEnvelopeFfi) × (Vault.decode_envelope ⦃u = number_uuid⦄ toy_json
        (Envelope.encode_envelope toy_json carrier)
      ≡ ok d)
    × (d.header.deleted ≡ false)
    × (d.body ≡ some sealed_clip)
    × (Vault.open_record toy_crypto key sealed_clip ≡ ok clip_ffi)
open_record-decode_envelope_ffi_example =
    open_record-decode_envelope_ffi toy_crypto ⦃u = number_uuid⦄ toy_json key nonce sealed_clip
      (Envelope.encode_envelope toy_json carrier) clip_ffi (from_envelope ⦃u = number_uuid⦄ carrier)
      carrier clip-IsSized (omega arith) clip_fits (omega arith) sealed_ffi refl refl sent
