-- ===== src/Kdf.antt =====
-- crates/clipy-si-core/src/kdf/mod.rs: the vault key of a passphrase.
pub mod Laws
mod Tests
use clipy_si_core.Common.{ℕ, Bool, true, false, List, [], ◌∷◌, ltb, ◌==◌, if◌then◌else◌}
use clipy_si_core.Common.Result.{Result, ok, err}
use clipy_si_core.Crypto.{key_len}
use clipy_si_core.Error.{CoreError, unsupported_format, kdf_failed}
use clipy_si_core.Extern.Crypto.{CryptoOps}
use clipy_si_core.Text.{Bytes, Chars, as_bytes}

abbrev pub kdf_version : ℕ
kdf_version = 1

-- The key-derivation algorithm, with its number of iterations.
pub data KdfKind : Type 0 where
  pbkdf2_hmac_sha256 : ℕ → KdfKind

pub record KdfDescriptor : Type 0 where
  pub kind : KdfKind
  pub salt : Bytes
  pub kdf_version : ℕ

abbrev is_empty : Bytes → Bool
is_empty [] = true
is_empty (x ∷ xs) = false

module _ (ops : CryptoOps) where
  derive_kind : Bytes → Bytes → KdfKind → Result Bytes CoreError
  derive_kind normalized salt (pbkdf2_hmac_sha256 iterations) =
      if ltb 0 iterations
      then ok (ops.pbkdf2 normalized salt iterations key_len)
      else err kdf_failed

  unfoldable pub derive_vault_key : Chars → KdfDescriptor → Result Bytes CoreError
  unfolding derive_kind
  derive_vault_key passphrase d =
      if d.kdf_version == kdf_version
      then (if is_empty d.salt
          then err kdf_failed
          else derive_kind (as_bytes (ops.nfc passphrase)) d.salt d.kind)
      else err unsupported_format
