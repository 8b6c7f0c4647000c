-- ===== src/Crypto/Tests.antt =====
-- The unit test of crates/clipy-si-core/src/crypto/mod.rs on lengths, which holds of any crates'
-- operations, and the round trip, which holds of those that seal. The tests that tampered boxes,
-- other keys and other labels are told apart rest on the ciphers and are left out.
use clipy_si_core.Common.{
  ◌+◌, ◌≡◌, refl, Bool, true, false, ◌&&◌, [], length, take, replicate, eq_bytes, ◌==◌,
}
use clipy_si_core.Common.Result.{Result, ok, err, is_err}
use clipy_si_core.Crypto.{nonce_len, key_len, tag_len, local_seal, local_open}
use clipy_si_core.Crypto.Laws.{local_open-local_seal}
use clipy_si_core.Error.{CoreError, invalid_input, decrypt_failed, same_error}
use clipy_si_core.Extern.Crypto.{CryptoOps}
use clipy_si_core.Text.{Bytes, ascii}

-- `unwrap` and `==` in one: an error is a failed test.
abbrev unwraps_to : Result Bytes CoreError → (Bytes → Bool) → Bool
unwraps_to (ok b) test = test b
unwraps_to (err e) test = false

module _ (ops : CryptoOps) where
  abbrev roundtrip_key : Bytes
  roundtrip_key = replicate key_len 0x2a

  abbrev roundtrip_nonce : Bytes
  roundtrip_nonce = replicate nonce_len 0

  seal_open_roundtrip : Bool
  seal_open_roundtrip =
      let pt = ascii "roundtrip" in
      unwraps_to (local_seal ops roundtrip_key roundtrip_nonce pt) (λ combined.
        length combined == (nonce_len + length pt + tag_len)
        && eq_bytes (take nonce_len combined) roundtrip_nonce
        && unwraps_to (local_open ops roundtrip_key combined) (λ opened. eq_bytes opened pt))

  invalid_lengths_rejected : Bool
  unfolding local_seal local_open
  invalid_lengths_rejected =
      is_err same_error (local_seal ops (replicate 16 0) (replicate nonce_len 0) []) invalid_input
      && is_err same_error (local_seal ops (replicate key_len 0) (replicate 8 0) []) invalid_input
      && is_err same_error (local_open ops (replicate key_len 0) (ascii "short")) decrypt_failed

  lengths_pass : invalid_lengths_rejected ≡ true
  unfolding invalid_lengths_rejected
  lengths_pass = refl

  roundtrip_passes :
      (box : Bytes)
      → local_seal ops roundtrip_key roundtrip_nonce (ascii "roundtrip") ≡ ok box
      → seal_open_roundtrip ≡ true
  unfolding seal_open_roundtrip
  roundtrip_passes box h =
      let (o, l, n) =
        local_open-local_seal ops roundtrip_key roundtrip_nonce (ascii "roundtrip") box h in
      rw (h, l, n, o) refl
