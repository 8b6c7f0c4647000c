-- ===== src/Crypto.antt =====
-- crates/clipy-si-core/src/crypto/mod.rs: sealing, opening, hashing and subkeys over the crates'
-- primitives, which are the parameter `CryptoOps`.
pub mod Laws
pub mod Authentic
mod Tests
use clipy_si_core.Common.{
  ℕ, ◌+◌, Option, none, some, List, ◌++◌, length, take, drop, ltb, ◌==◌, if◌then◌else◌,
}
use clipy_si_core.Common.Result.{Result, ok, err, ◌>>=◌, ok_or}
use clipy_si_core.Error.{CoreError, invalid_input, decrypt_failed}
use clipy_si_core.Extern.Crypto.{CryptoOps}
use clipy_si_core.Hex.{hex_lower}
use clipy_si_core.Text.{Bytes, Chars}

abbrev pub nonce_len : ℕ
nonce_len = 12

abbrev pub tag_len : ℕ
tag_len = 16

abbrev pub key_len : ℕ
key_len = 32

-- The cipher of a key is that key, if its length is right.
cipher : Bytes → Result Bytes CoreError
cipher key = if length key == key_len then ok key else err invalid_input

module _ (ops : CryptoOps) where
  unfoldable pub local_seal : Bytes → Bytes → Bytes → Result Bytes CoreError
  unfolding cipher
  local_seal key nonce plaintext = do
    c ← cipher key
    nonce ← if length nonce == nonce_len then ok nonce else err invalid_input
    ct_and_tag ← ok_or (ops.encrypt c nonce plaintext) invalid_input
    ok (nonce ++ ct_and_tag)

  unfoldable pub local_open : Bytes → Bytes → Result Bytes CoreError
  unfolding cipher
  local_open key combined = do
    c ← cipher key
    combined ←
        if ltb (length combined) (nonce_len + tag_len) then err decrypt_failed else ok combined
    ok_or (ops.decrypt c (take nonce_len combined) (drop nonce_len combined)) decrypt_failed

  -- Keyed dedupe hash, in lowercase hex.
  unfoldable pub content_hash : Bytes → Bytes → Chars
  content_hash key payload = hex_lower (ops.hmac key payload)

  -- The subkey of a 32-byte master under a label.
  unfoldable pub hkdf_subkey : Bytes → Bytes → Bytes
  hkdf_subkey master info = ops.expand master info key_len
