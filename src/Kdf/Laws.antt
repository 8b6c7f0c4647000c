-- ===== src/Kdf/Laws.antt =====
-- derive_vault_key: when it succeeds, and what its result depends on.
use clipy_si_core.Common.{ℕ, ◌<◌, ◌≡◌, ◌≢◌, ◌↔◌, refl, ◌⊎◌, [], length, arith}
use clipy_si_core.Common.Result.{ok, err}
use clipy_si_core.Crypto.{key_len}
use clipy_si_core.Error.{unsupported_format, kdf_failed}
use clipy_si_core.Extern.Crypto.{CryptoOps}
use clipy_si_core.Kdf.{
  kdf_version, KdfKind, pbkdf2_hmac_sha256, KdfDescriptor, derive_vault_key, derive_kind,
}
use clipy_si_core.Text.{Bytes, Chars, as_bytes}

abbrev pub iterations : KdfKind → ℕ
iterations (pbkdf2_hmac_sha256 n) = n

module _ (ops : CryptoOps) where
  -- Deriving a key fails as an unsupported format exactly on another version, fails as a key
  -- derivation exactly on a right version with an empty salt or no iterations, and otherwise is
  -- PBKDF2 of the normalised passphrase's bytes, the salt and the iterations, to 32 bytes.
  pub derive_vault_key_iff :
      (passphrase : Chars) (d : KdfDescriptor)
      → ((derive_vault_key ops passphrase d ≡ err unsupported_format)
          ↔ (d.kdf_version ≢ kdf_version))
        × ((derive_vault_key ops passphrase d ≡ err kdf_failed)
            ↔ ((d.kdf_version ≡ kdf_version) × ((d.salt ≡ []) ⊎ (iterations d.kind ≡ 0))))
        × ((derive_vault_key ops passphrase d
              ≡ ok (ops.pbkdf2 (as_bytes (ops.nfc passphrase)) d.salt (iterations d.kind) key_len))
            ↔ ((d.kdf_version ≡ kdf_version) × (d.salt ≢ []) × (0 < iterations d.kind)))
  unfolding derive_vault_key derive_kind
  derive_vault_key_iff passphrase d = ground arith

  -- A key that is returned has 32 bytes.
  pub length-derive_vault_key :
      (passphrase : Chars) (d : KdfDescriptor) (key : Bytes)
      → derive_vault_key ops passphrase d ≡ ok key
      → length key ≡ key_len
  unfolding derive_vault_key derive_kind
  length-derive_vault_key passphrase d key h =
      ground (
        arith,
        ops.length-pbkdf2 (as_bytes (ops.nfc passphrase)) d.salt (iterations d.kind) key_len,
      )

  -- Passphrases with the same normal form derive the same key.
  pub derive_vault_key-nfc :
      (passphrase retyped : Chars) (d : KdfDescriptor)
      → ops.nfc passphrase ≡ ops.nfc retyped
      → derive_vault_key ops passphrase d ≡ derive_vault_key ops retyped d
  unfolding derive_vault_key
  derive_vault_key-nfc passphrase retyped d same = rw same refl
