-- ===== src/Record/Vault/Devices.antt =====
-- Two devices that share a passphrase: `vault.json` and a record on their way from one to the other.
use clipy_si_core.Common.{
  All-append, ◌≤◌, ◌<◌, ◌≡◌, ◌∙◌, refl, true, false, some, arith, length, All,
}
use clipy_si_core.Common.Int.{ℤ}
use clipy_si_core.Common.Result.{ok}
use clipy_si_core.Crypto.{local_seal, hkdf_subkey}
use clipy_si_core.Crypto.Laws.{local_seal-ok}
use clipy_si_core.Extern.Crypto.{CryptoOps}
use clipy_si_core.Extern.Json.{JsonOps}
use clipy_si_core.Kdf.{KdfDescriptor, derive_vault_key}
use clipy_si_core.Record.{
  RecordHeader, RecordPlaintext, RecordEnvelope, VaultManifest, record_format_version,
}
use clipy_si_core.Record.Canonical.{max_representations, encode_plaintext}
use clipy_si_core.Record.Canonical.Layout.{IsSized}
use clipy_si_core.Record.Envelope.{encode_envelope, decode_envelope}
use clipy_si_core.Record.Envelope.Laws.{decode_envelope-encode_envelope}
use clipy_si_core.Record.Vault.{
  info_cclip, verifier_plaintext, make_vault_manifest, verify_passphrase, encode_vault_manifest,
  decode_vault_manifest, seal_record, open_record,
}
use clipy_si_core.Record.Vault.Manifest.{
  make_vault_manifest-ok, verify_passphrase-make_vault_manifest,
  decode_vault_manifest-encode_vault_manifest,
}
use clipy_si_core.Record.Vault.Seal.{open_record-seal_record}
use clipy_si_core.Record.Words.{u32_mod, isize_mod}
use clipy_si_core.Text.{Bytes, Chars, IsByte}

module _ (ops : CryptoOps) {Uuid : Type 0} (json : JsonOps Uuid) where
  -- The verifier of a made manifest is bytes.
  verifier-IsByte :
      (key nonce box : Bytes)
      → All IsByte nonce
      → local_seal ops key nonce verifier_plaintext ≡ ok box
      → All IsByte box
  verifier-IsByte key nonce box b h =
      let (c, e, eb, k, n) = local_seal-ok ops key nonce verifier_plaintext box h in
      rw eb (
        All-append IsByte nonce c b
          (ops.bytes-encrypt key nonce verifier_plaintext c e (ground arith)))

  -- A made manifest reads back from its document.
  pub decode_made :
      (key : Bytes) (id : Uuid) (t : ℤ) (kdf : KdfDescriptor) (nonce : Bytes)
      (m : VaultManifest Uuid)
      → All IsByte kdf.salt
      → All IsByte nonce
      → make_vault_manifest ops key id t kdf nonce ≡ ok m
      → decode_vault_manifest json (encode_vault_manifest json m) ≡ ok m
  decode_made key id t kdf nonce m bs bn h =
      let (k, v, e, s) = make_vault_manifest-ok ops key id t kdf nonce m h in
      decode_vault_manifest-encode_vault_manifest json m (rw e bs)
        (verifier-IsByte (hkdf_subkey ops key info_cclip) nonce m.verifier bn s)
      ∙ rw v refl

  -- A key was derived from a passphrase and a descriptor, and a manifest was made with it, the salt
  -- and the nonce being bytes. Then `vault.json` reads back as that manifest, the passphrase and
  -- the manifest's own descriptor derive the same key, and the manifest accepts it.
  pub unlock_vault :
      (passphrase : Chars) (kdf : KdfDescriptor) (key : Bytes) (id : Uuid) (t : ℤ) (nonce : Bytes)
      (m : VaultManifest Uuid)
      → All IsByte kdf.salt
      → All IsByte nonce
      → derive_vault_key ops passphrase kdf ≡ ok key
      → make_vault_manifest ops key id t kdf nonce ≡ ok m
      → (decode_vault_manifest json (encode_vault_manifest json m) ≡ ok m)
        × (derive_vault_key ops passphrase m.kdf ≡ ok key)
        × (verify_passphrase ops key m ≡ true)
  unlock_vault passphrase kdf key id t nonce m bs bn d h =
      let (k, v, e, s) = make_vault_manifest-ok ops key id t kdf nonce m h in
      (
        decode_made key id t kdf nonce m bs bn h,
        rw e d,
        verify_passphrase-make_vault_manifest ops key id t kdf nonce m h,
      )

  -- A record within the limits of the format that was sealed and put into a live envelope of the
  -- frozen version, whose header's JSON is shorter than 2^32 bytes, decodes to an envelope with
  -- that header and body, and the body opens under the same key to the record.
  pub open_record-decode_envelope :
      (key nonce box : Bytes) (p : RecordPlaintext) (header : RecordHeader Uuid)
      → IsSized p
      → length p.representations ≤ max_representations
      → length (encode_plaintext p) < isize_mod
      → length (json.header_to_vec header) < u32_mod
      → header.format_version ≡ record_format_version
      → header.deleted ≡ false
      → seal_record ops key nonce p ≡ ok box
      → (env : RecordEnvelope Uuid) × (decode_envelope json
            (encode_envelope json (record { header = header; body = some box }))
          ≡ ok env)
        × (env.header ≡ header)
        × (env.body ≡ some box)
        × (open_record ops key box ≡ ok p)
  open_record-decode_envelope key nonce box p header s few bound small v d h = (
    record { header = header; body = some box },
    decode_envelope-encode_envelope json (record { header = header; body = some box }) small
        ∙ rw (v, d) refl,
    refl,
    refl,
    open_record-seal_record ops key nonce box p s few bound h,
  )
