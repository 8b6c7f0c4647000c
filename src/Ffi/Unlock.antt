-- ===== src/Ffi/Unlock.antt =====
-- A second device opens the vault through the binding, with what is in `vault.json` and a passphrase.
use clipy_si_core.Common.{◌≡◌, ap, sym, ◌∙◌, true, All}
use clipy_si_core.Common.Int.{ℤ}
use clipy_si_core.Common.Result.{ok, map_err}
use clipy_si_core.Extern.Crypto.{CryptoOps}
use clipy_si_core.Extern.Json.{JsonOps}
use clipy_si_core.Extern.Uuid.{UuidOps}
use clipy_si_core.Ffi.{from_core_error}
use clipy_si_core.Ffi.Laws.{verify_passphrase-make_vault_manifest_ffi}
use clipy_si_core.Ffi.Records.{KdfDescriptorFfi, to_descriptor}
use clipy_si_core.Ffi.Vault
use clipy_si_core.Kdf.Laws.{derive_vault_key-nfc}
use clipy_si_core.Text.{Bytes, Chars, IsByte}

module _ {Uuid : Type 0} ⦃u : UuidOps Uuid⦄ (json : JsonOps Uuid) (ops : CryptoOps) where
  -- One device derived a key from a passphrase and made `vault.json` with it, the salt and the
  -- nonce being bytes. Another one that is given a passphrase with the same normal form reads the
  -- descriptor from the document, derives the same key from it, and the document accepts that key.
  pub unlock_vault_ffi :
      (passphrase retyped : Chars) (key : Bytes) (id : Chars) (t : ℤ) (kdf : KdfDescriptorFfi)
      (nonce bytes : Bytes)
      → All IsByte kdf.salt
      → All IsByte nonce
      → ops.nfc passphrase ≡ ops.nfc retyped
      → Vault.derive_vault_key ops passphrase kdf ≡ ok key
      → Vault.make_vault_manifest json ops key id t kdf nonce ≡ ok bytes
      → (d : KdfDescriptorFfi) × (Vault.manifest_kdf json bytes ≡ ok d)
        × (Vault.derive_vault_key ops retyped d ≡ ok key)
        × (Vault.verify_passphrase json ops key bytes ≡ ok true)
  unfolding Vault.derive_vault_key
  unlock_vault_ffi passphrase retyped key id t kdf nonce bytes bs bn same d h =
      let (verified, read) =
        verify_passphrase-make_vault_manifest_ffi json ops key id t kdf nonce bytes bs bn h in
      (
        kdf,
        read,
        sym (
              ap (λ r. map_err r from_core_error)
                (derive_vault_key-nfc ops passphrase retyped (to_descriptor kdf) same))
            ∙ d,
        verified,
      )
