-- ===== src/Crypto/Laws.antt =====
-- local_seal and local_open, and their errors.
use clipy_si_core.Common.{
  ℕ, ◌+◌, ◌<◌, ◌≡◌, ◌≢◌, ◌↔◌, sym, ◌∙◌, ◌⊎◌, inl, inr, none, some, Option-cases, Bool-cases, ltb,
  ◌++◌, arith, length, length-append, take, drop, take-append, drop-append, ap,
}
use clipy_si_core.Common.Result.{ok, err}
use clipy_si_core.Error.{CoreError, invalid_input, decrypt_failed}
use clipy_si_core.Extern.Crypto.{CryptoOps}
use clipy_si_core.Crypto.{key_len, nonce_len, tag_len, local_seal, local_open}
use clipy_si_core.Text.{Bytes}

module _ (ops : CryptoOps) where
  -- What a successful seal returned.
  pub local_seal-ok :
      (key nonce plaintext box : Bytes)
      → local_seal ops key nonce plaintext ≡ ok box
      → (sealed : Bytes) × (ops.encrypt key nonce plaintext ≡ some sealed)
        × (box ≡ nonce ++ sealed)
        × (length key ≡ key_len)
        × (length nonce ≡ nonce_len)
  unfolding local_seal
  local_seal-ok key nonce plaintext box h = elim (Option-cases (ops.encrypt key nonce plaintext)) [
    | inl e ↦ absurd (ground (arith, e))
    | inr (c, e) ↦ (c, e, ground (arith, e), ground (arith, e), ground (arith, e))
  ]

  -- A box that was sealed opens under the same key to what was sealed; it is 12 bytes of nonce and
  -- 16 of tag longer than the plaintext, and begins with the nonce.
  pub local_open-local_seal :
      (key nonce plaintext box : Bytes)
      → local_seal ops key nonce plaintext ≡ ok box
      → (local_open ops key box ≡ ok plaintext)
        × (length box ≡ nonce_len + length plaintext + tag_len)
        × (take nonce_len box ≡ nonce)
  unfolding local_open
  local_open-local_seal key nonce plaintext box h =
      let (c, e, eb, k, n) = local_seal-ok key nonce plaintext box h in
      let len = ops.length-encrypt key nonce plaintext c e in
      let front : take nonce_len (nonce ++ c) ≡ nonce =
        ap (λ (m : ℕ). take m (nonce ++ c)) (sym n) ∙ take-append nonce c in
      let back : drop nonce_len (nonce ++ c) ≡ c =
        ap (λ (m : ℕ). drop m (nonce ++ c)) (sym n) ∙ drop-append nonce c in
      rw eb (
        ground (
          arith,
          k,
          n,
          len,
          length-append nonce c,
          front,
          back,
          ops.decrypt-encrypt key nonce plaintext c e,
        ),
        omega (arith, len, n, length-append nonce c),
        front,
      )

  -- Sealing fails only as invalid input.
  pub local_seal-err :
      (key nonce plaintext : Bytes) (e : CoreError)
      → local_seal ops key nonce plaintext ≡ err e
      → e ≡ invalid_input
  unfolding local_seal
  local_seal-err key nonce plaintext e h = elim (Option-cases (ops.encrypt key nonce plaintext)) [
    | inl n ↦ ground (arith, n)
    | inr (c, n) ↦ ground (arith, n)
  ]

  -- Opening fails as invalid input exactly on a key of another length than 32, and under a right
  -- key exactly on a box shorter than nonce and tag or one that the cipher refuses.
  pub local_open_errors :
      (key combined : Bytes)
      → ((local_open ops key combined ≡ err invalid_input) ↔ (length key ≢ key_len))
        × ((local_open ops key combined ≡ err decrypt_failed) ↔ (
            (length key ≡ key_len)
            × ((length combined < nonce_len + tag_len)
                ⊎ (ops.decrypt key (take nonce_len combined) (drop nonce_len combined) ≡ none))))
  unfolding local_open
  local_open_errors key combined =
      elim (Option-cases (ops.decrypt key (take nonce_len combined) (drop nonce_len combined))) [
        | inl n ↦ ground (arith, n)
        | inr (c, n) ↦ ground (arith, n)
      ]

  -- Under a right key a box opens or is refused by the cipher.
  pub local_open-cases :
      (key combined : Bytes)
      → length key ≡ key_len
      → ((plaintext : Bytes) × (local_open ops key combined ≡ ok plaintext))
        ⊎ (local_open ops key combined ≡ err decrypt_failed)
  unfolding local_open
  local_open-cases key combined k =
      elim (Option-cases (ops.decrypt key (take nonce_len combined) (drop nonce_len combined))) [
        | inl n ↦ inr (ground (arith, k, n))
        | inr (m, n) ↦ elim (Bool-cases (ltb (length combined) (nonce_len + tag_len))) [
          | inl short ↦ inr (ground (arith, k, n, short))
          | inr long ↦ inl (m, ground (arith, k, n, long))
        ]
      ]
