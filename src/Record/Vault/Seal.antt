-- ===== src/Record/Vault/Seal.antt =====
-- seal_record, open_record and compute_sync_hash.
use clipy_si_core.Common.{
  ◌≤◌, ◌<◌, ◌≡◌, ◌≢◌, ◌↔◌, ◌∙◌, ◌⊎◌, inl, inr, refl, arith, length, All, ==_iff, none, Option-cases,
  Bool-cases, ◌==◌,
}
use clipy_si_core.Common.Result.{ok, err}
use clipy_si_core.Crypto.{key_len, nonce_len, local_seal, content_hash, hkdf_subkey}
use clipy_si_core.Crypto.Laws.{local_open-local_seal}
use clipy_si_core.Error.{invalid_input, unsupported_format}
use clipy_si_core.Extern.Crypto.{CryptoOps}
use clipy_si_core.Hex.{hex_lower}
use clipy_si_core.Hex.Laws.{length-hex_lower, hex_lower-IsHexDigit, IsHexDigit}
use clipy_si_core.Record.{RecordPlaintext}
use clipy_si_core.Record.Canonical.{max_representations, encode_plaintext, decode_plaintext}
use clipy_si_core.Record.Canonical.Layout.{IsSized}
use clipy_si_core.Record.Canonical.RoundTrip.{
  decode_plaintext-encode_plaintext, decode_plaintext-too_many,
}
use clipy_si_core.Record.Words.{isize_mod}
use clipy_si_core.Record.Vault.{
  as_key32, info_cclip, info_dedupe, seal_record, open_record, compute_sync_hash,
}
use clipy_si_core.Text.{Bytes, Chars}

module _ (ops : CryptoOps) where
  -- A sealed record is a box under the subkey, and its key has 32 bytes.
  pub seal_record-ok :
      (key nonce box : Bytes) (p : RecordPlaintext)
      → seal_record ops key nonce p ≡ ok box
      → (length key ≡ key_len)
        × (local_seal ops (hkdf_subkey ops key info_cclip) nonce (encode_plaintext p) ≡ ok box)
  unfolding seal_record as_key32
  seal_record-ok key nonce box p h = ground arith

  -- Opening a sealed record is decoding its plaintext.
  open_record-seal_record_eq :
      (key nonce box : Bytes) (p : RecordPlaintext)
      → seal_record ops key nonce p ≡ ok box
      → open_record ops key box ≡ decode_plaintext (encode_plaintext p)
  unfolding open_record as_key32
  open_record-seal_record_eq key nonce box p h =
      let (k, s) = seal_record-ok key nonce box p h in
      let (o, l, n) =
        local_open-local_seal ops (hkdf_subkey ops key info_cclip) nonce (encode_plaintext p) box
          s in
      rw ((==_iff (length key) key_len).1 k) (rw o)

  -- A sealed record opens under the same key to the record, if its strings are valid, its lengths
  -- fit a `u32`, it has at most 4096 representations and its encoding fits the address space.
  pub open_record-seal_record :
      (key nonce box : Bytes) (p : RecordPlaintext)
      → IsSized p
      → length p.representations ≤ max_representations
      → length (encode_plaintext p) < isize_mod
      → seal_record ops key nonce p ≡ ok box
      → open_record ops key box ≡ ok p
  open_record-seal_record key nonce box p s few bound h =
      open_record-seal_record_eq key nonce box p h ∙ decode_plaintext-encode_plaintext p s few bound

  -- What was sealed of a record with more than 4096 representations, of valid strings, lengths that
  -- fit and an encoding that fits the address space, does not open: unsupported format.
  pub open_record-too_many :
      (key nonce box : Bytes) (p : RecordPlaintext)
      → IsSized p
      → max_representations < length p.representations
      → length (encode_plaintext p) < isize_mod
      → seal_record ops key nonce p ≡ ok box
      → open_record ops key box ≡ err unsupported_format
  open_record-too_many key nonce box p s many bound h =
      open_record-seal_record_eq key nonce box p h ∙ decode_plaintext-too_many p s many bound

  pub length-hkdf_subkey : (key : Bytes) → length (hkdf_subkey ops key info_cclip) ≡ key_len
  unfolding hkdf_subkey
  length-hkdf_subkey key = ops.length-expand key info_cclip key_len

  -- Sealing fails as invalid input exactly if the key or the nonce has another length than the
  -- cipher's, or the cipher refuses the plaintext.
  pub seal_record_iff :
      (key nonce : Bytes) (p : RecordPlaintext)
      → (seal_record ops key nonce p ≡ err invalid_input) ↔ (
          (length key ≢ key_len)
          ⊎ (length nonce ≢ nonce_len)
          ⊎ (ops.encrypt (hkdf_subkey ops key info_cclip) nonce (encode_plaintext p) ≡ none))
  unfolding seal_record as_key32 local_seal
  seal_record_iff key nonce p =
      elim (Option-cases
        (ops.encrypt (hkdf_subkey ops key info_cclip) nonce (encode_plaintext p))) [
          | inl n ↦ ground (arith, n, length-hkdf_subkey key)
          | inr (c, n) ↦ ground (arith, n, length-hkdf_subkey key)
        ]

  -- Under a key of 32 bytes the sync hash is 64 lowercase hex digits; under any other key it is an
  -- invalid input.
  pub compute_sync_hash_lem :
      (key payload : Bytes)
      → ((length key ≡ key_len)
          × (h : Chars) × (compute_sync_hash ops key payload ≡ ok h)
          × (length h ≡ 64)
          × All IsHexDigit h)
        ⊎ ((length key ≢ key_len) × (compute_sync_hash ops key payload ≡ err invalid_input))
  unfolding compute_sync_hash as_key32 content_hash
  compute_sync_hash_lem key payload = elim (Bool-cases (length key == key_len)) [
    | inl e ↦ inl (
      (==_iff (length key) key_len).0 e,
      hex_lower mac,
      rw e refl,
      omega (arith, length-hex_lower mac, ops.length-hmac subkey payload),
      hex_lower-IsHexDigit mac (ops.bytes-hmac subkey payload),
    )
    | inr e ↦ inr (ground (arith, e), rw e refl)
  ]
    where
      subkey : Bytes
      subkey = hkdf_subkey ops key info_dedupe

      mac : Bytes
      mac = ops.hmac subkey payload
