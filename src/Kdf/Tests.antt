-- ===== src/Kdf/Tests.antt =====
-- The unit tests of crates/clipy-si-core/src/kdf/mod.rs on what is refused, each the conjunction of
-- what it asserts. They hold of any crates' operations. The test on composed and decomposed
-- passphrases rests on the tables of Unicode and is left out.
use clipy_si_core.Common.{ℕ, ◌≡◌, refl, Bool, true, ◌&&◌, [], ◌∷◌}
use clipy_si_core.Common.Result.{is_err}
use clipy_si_core.Error.{unsupported_format, kdf_failed, same_error}
use clipy_si_core.Extern.Crypto.{CryptoOps}
use clipy_si_core.Kdf.{KdfDescriptor, pbkdf2_hmac_sha256, kdf_version, derive_vault_key}
use clipy_si_core.Text.{ascii}

abbrev descriptor : ℕ → KdfDescriptor
descriptor iterations = record {
  kind = pbkdf2_hmac_sha256 iterations;
  salt = ascii "0123456789abcdef";
  kdf_version = kdf_version;
}

module _ (ops : CryptoOps) where
  zero_iterations_and_empty_salt_rejected : Bool
  unfolding derive_vault_key
  zero_iterations_and_empty_salt_rejected =
      let d = record (descriptor 4096) { salt = [] } in
      is_err same_error (derive_vault_key ops (b'x' ∷ []) (descriptor 0)) kdf_failed
      && is_err same_error (derive_vault_key ops (b'x' ∷ []) d) kdf_failed

  unknown_version_rejected : Bool
  unfolding derive_vault_key
  unknown_version_rejected =
      let d = record (descriptor 4096) { kdf_version = 99 } in
      is_err same_error (derive_vault_key ops (b'x' ∷ []) d) unsupported_format

  tests_pass : zero_iterations_and_empty_salt_rejected && unknown_version_rejected ≡ true
  unfolding zero_iterations_and_empty_salt_rejected unknown_version_rejected
  tests_pass = refl
