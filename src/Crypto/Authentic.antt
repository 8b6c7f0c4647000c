-- ===== src/Crypto/Authentic.antt =====
-- local_open under an authenticated cipher: what opens was sealed.
use clipy_si_core.Common.{
  ℕ, zero, suc, [], ◌∷◌, ◌+◌, ◌≤◌, ◌≡◌, ◌↔◌, inl, inr, some, Option-cases, arith, length,
  length-take, take, drop, take-append-drop, All,
}
use clipy_si_core.Common.Result.{ok}
use clipy_si_core.Crypto.{key_len, nonce_len, tag_len, local_seal, local_open}
use clipy_si_core.Crypto.Laws.{local_open-local_seal}
use clipy_si_core.Extern.Crypto.{CryptoOps, IsAuthentic}
use clipy_si_core.Text.{Bytes, IsByte}

All-drop : (n : ℕ) (xs : Bytes) → All IsByte xs → All IsByte (drop n xs)
All-drop zero xs h = h
All-drop (suc n) [] h = tt
All-drop (suc n) (x ∷ xs) h = All-drop n xs h.1

module _ (ops : CryptoOps) where
  -- What a successful opening went through.
  pub local_open-ok :
      (key box plaintext : Bytes)
      → local_open ops key box ≡ ok plaintext
      → (length key ≡ key_len)
        × (nonce_len + tag_len ≤ length box)
        × (ops.decrypt key (take nonce_len box) (drop nonce_len box) ≡ some plaintext)
  unfolding local_open
  local_open-ok key box plaintext h =
      elim (Option-cases (ops.decrypt key (take nonce_len box) (drop nonce_len box))) [
        | inl e ↦ absurd (ground (arith, e))
        | inr (c, e) ↦ ground (arith, e)
      ]

  module _ (auth : IsAuthentic ops) where
    -- A box that opens was sealed, under the nonce that it begins with.
    pub local_seal-local_open :
        (key box plaintext : Bytes)
        → local_open ops key box ≡ ok plaintext
        → local_seal ops key (take nonce_len box) plaintext ≡ ok box
    unfolding local_seal
    local_seal-local_open key box plaintext h =
        let (k, l, d) = local_open-ok key box plaintext h in
        let n : length (take nonce_len box) ≡ nonce_len =
          omega (arith, length-take nonce_len box) in
        let e =
          auth.encrypt-decrypt key (take nonce_len box) plaintext (drop nonce_len box) k n d in
        let whole = take-append-drop nonce_len box in ground (arith, k, n, e, whole)

    -- A box opens to a plaintext exactly if it is a seal of that plaintext under some nonce.
    pub local_open_iff :
        (key box plaintext : Bytes)
        → (local_open ops key box ≡ ok plaintext)
          ↔ ((nonce : Bytes) × (local_seal ops key nonce plaintext ≡ ok box))
    local_open_iff key box plaintext = (
      λ h. (take nonce_len box, local_seal-local_open key box plaintext h),
      λ (nonce, h). (local_open-local_seal ops key nonce plaintext box h).0,
    )

    pub local_open-IsByte :
        (key box plaintext : Bytes)
        → All IsByte box
        → local_open ops key box ≡ ok plaintext
        → All IsByte plaintext
    local_open-IsByte key box plaintext b h =
        let (k, l, d) = local_open-ok key box plaintext h in
        auth.bytes-decrypt key (take nonce_len box) plaintext (drop nonce_len box) d
          (All-drop nonce_len box b)

    pub local_open-length :
        (key box plaintext : Bytes)
        → local_open ops key box ≡ ok plaintext
        → length box ≡ nonce_len + length plaintext + tag_len
    local_open-length key box plaintext h =
        (local_open-local_seal ops key (take nonce_len box) plaintext box
          (local_seal-local_open key box plaintext h)).1
