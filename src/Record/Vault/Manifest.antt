-- ===== src/Record/Vault/Manifest.antt =====
-- The vault manifest: its verifier, and `vault.json`.
use clipy_si_core.Common.{
  ℕ, ◌≤◌, ◌<◌, ◌≡◌, inl, inr, refl, true, ◌∷◌, arith, length, All, ==_iff, eq_bytes_refl, ◌==◌,
  if◌then◌else◌, ◌%◌,
}
use clipy_si_core.Common.Int.{ℤ}
use clipy_si_core.Common.Result.{ok, err, Result-cases}
use clipy_si_core.Crypto.{key_len, local_seal, hkdf_subkey}
use clipy_si_core.Crypto.Laws.{local_open-local_seal}
use clipy_si_core.Error.{unsupported_format}
use clipy_si_core.Extern.Crypto.{CryptoOps}
use clipy_si_core.Extern.Json.{JsonOps, ManifestText}
use clipy_si_core.Hex.{deserialize}
use clipy_si_core.Hex.Laws.{deserialize-hex_lower, deserialize_panics}
use clipy_si_core.Kdf.{KdfDescriptor}
use clipy_si_core.Record.{VaultManifest, vault_format_version}
use clipy_si_core.Record.Vault.{
  as_key32, opens_to, verify_master, info_cclip, verifier_plaintext, make_vault_manifest,
  verify_passphrase, failed, panic, encode_vault_manifest, decode_vault_manifest, manifest_text,
}
use clipy_si_core.Text.{Bytes, Chars, IsByte, IsScalar, as_bytes}

module _ (ops : CryptoOps) {Uuid : Type 0} where
  -- What a made manifest holds.
  pub make_vault_manifest-ok :
      (key : Bytes) (id : Uuid) (t : ℤ) (kdf : KdfDescriptor) (nonce : Bytes)
      (m : VaultManifest Uuid)
      → make_vault_manifest ops key id t kdf nonce ≡ ok m
      → (length key ≡ key_len)
        × (m.format_version ≡ vault_format_version)
        × (m.kdf ≡ kdf)
        × (local_seal ops (hkdf_subkey ops key info_cclip) nonce verifier_plaintext ≡ ok m.verifier)
  unfolding make_vault_manifest as_key32
  make_vault_manifest-ok key id t kdf nonce m h =
      elim (Result-cases
        (local_seal ops (hkdf_subkey ops key info_cclip) nonce verifier_plaintext)) [
          | inl (b, e) ↦ ground (arith, e)
          | inr (b, e) ↦ ground (arith, e)
        ]

  -- The key that made a manifest is the one it asks for.
  pub verify_passphrase-make_vault_manifest :
      (key : Bytes) (id : Uuid) (t : ℤ) (kdf : KdfDescriptor) (nonce : Bytes)
      (m : VaultManifest Uuid)
      → make_vault_manifest ops key id t kdf nonce ≡ ok m
      → verify_passphrase ops key m ≡ true
  unfolding verify_passphrase as_key32 opens_to verify_master
  verify_passphrase-make_vault_manifest key id t kdf nonce m h =
      let (k, v, d, s) = make_vault_manifest-ok key id t kdf nonce m h in
      let (o, l, n) =
        local_open-local_seal ops (hkdf_subkey ops key info_cclip) nonce verifier_plaintext
          m.verifier s in
      rw ((==_iff (length key) key_len).1 k) (rw o (eq_bytes_refl verifier_plaintext))

module _ {Uuid : Type 0} (json : JsonOps Uuid) where
  -- `vault.json` of a manifest whose salt and verifier are bytes reads back as the manifest if that
  -- has the frozen version, and is refused otherwise.
  pub decode_vault_manifest-encode_vault_manifest :
      (m : VaultManifest Uuid)
      → All IsByte m.kdf.salt
      → All IsByte m.verifier
      → decode_vault_manifest json (encode_vault_manifest json m) ≡ (
          if m.format_version == vault_format_version
          then ok m
          else err (failed unsupported_format))
  unfolding decode_vault_manifest encode_vault_manifest
  decode_vault_manifest-encode_vault_manifest m s v =
      rw (json.manifest_inverse deserialize (manifest_text m), decode_vault_manifest)
        (rw (deserialize-hex_lower m.kdf.salt s, deserialize-hex_lower m.verifier v) refl)

  -- A document that is written with a salt text of even length in bytes, whose first character is
  -- ASCII and whose second is not, makes the reader panic.
  pub decode_vault_manifest_panics :
      (t : ManifestText Uuid) (a c : ℕ) (s : Chars)
      → t.salt ≡ a ∷ c ∷ s
      → a < 0x80
      → 0x80 ≤ c
      → IsScalar c
      → length (as_bytes (a ∷ c ∷ s)) % 2 ≡ 0
      → decode_vault_manifest json (json.manifest_to_vec t) ≡ err panic
  unfolding decode_vault_manifest
  decode_vault_manifest_panics t a c s e ha hc hs h =
      rw (json.manifest_inverse deserialize t, decode_vault_manifest)
        (rw (e, deserialize_panics a c s ha hc hs h) refl)
