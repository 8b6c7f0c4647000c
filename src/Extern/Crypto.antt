-- ===== src/Extern/Crypto.antt =====
-- The crates aes-gcm, hmac, hkdf, pbkdf2 and unicode-normalization.
use clipy_si_core.Common.{ℕ, ◌+◌, ◌≡◌, Option, some, length, All}
use clipy_si_core.Text.{Bytes, Chars, IsByte}

pub record CryptoOps : Type 0 where
  -- `Aes256Gcm::encrypt` and `decrypt`, by key, nonce and message; `none` is their error.
  pub encrypt : Bytes → Bytes → Bytes → Option Bytes
  pub decrypt : Bytes → Bytes → Bytes → Option Bytes
  -- HMAC-SHA256 of a payload under a key.
  pub hmac : Bytes → Bytes → Bytes
  -- HKDF-SHA256 expansion of a key under a label, to so many bytes.
  pub expand : Bytes → Bytes → ℕ → Bytes
  -- PBKDF2-HMAC-SHA256 of a password, a salt and a number of rounds, to so many bytes.
  pub pbkdf2 : Bytes → Bytes → ℕ → ℕ → Bytes
  -- Unicode normalisation form C.
  pub nfc : Chars → Chars
  pub decrypt-encrypt :
      (key nonce message sealed : Bytes)
      → encrypt key nonce message ≡ some sealed
      → decrypt key nonce sealed ≡ some message
  pub length-encrypt :
      (key nonce message sealed : Bytes)
      → encrypt key nonce message ≡ some sealed
      → length sealed ≡ length message + 16
  pub bytes-encrypt :
      (key nonce message sealed : Bytes)
      → encrypt key nonce message ≡ some sealed
      → All IsByte message
      → All IsByte sealed
  pub length-hmac : (key payload : Bytes) → length (hmac key payload) ≡ 32
  pub bytes-hmac : (key payload : Bytes) → All IsByte (hmac key payload)
  pub length-expand : (key info : Bytes) (n : ℕ) → length (expand key info n) ≡ n
  pub length-pbkdf2 :
      (password salt : Bytes) (rounds n : ℕ) → length (pbkdf2 password salt rounds n) ≡ n

-- The cipher is authenticated and deterministic: under a 32-byte key and a 12-byte nonce it opens
-- nothing but what it seals, and what it opens of bytes is bytes.
pub record IsAuthentic (ops : CryptoOps) : Type 0 where
  pub encrypt-decrypt :
      (key nonce message sealed : Bytes)
      → length key ≡ 32
      → length nonce ≡ 12
      → ops.decrypt key nonce sealed ≡ some message
      → ops.encrypt key nonce message ≡ some sealed
  pub bytes-decrypt :
      (key nonce message sealed : Bytes)
      → ops.decrypt key nonce sealed ≡ some message
      → All IsByte sealed
      → All IsByte message
