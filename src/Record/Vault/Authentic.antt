-- ===== src/Record/Vault/Authentic.antt =====
-- open_record and verify_passphrase under an authenticated cipher.
use clipy_si_core.Common.{
  ◌<◌, ◌≤◌, ◌≡◌, ◌↔◌, sym, ap, ◌∙◌, inl, inr, true, arith, length, take, ==_iff, All, eq_bytes→,
}
use clipy_si_core.Common.Result.{ok, Result-cases}
use clipy_si_core.Crypto.{key_len, nonce_len, local_open, hkdf_subkey}
use clipy_si_core.Crypto.Laws.{local_open-local_seal}
use clipy_si_core.Crypto.Authentic.{local_seal-local_open, local_open-IsByte}
use clipy_si_core.Extern.Crypto.{CryptoOps, IsAuthentic}
use clipy_si_core.Record.{RecordPlaintext, VaultManifest, vault_format_version}
use clipy_si_core.Record.Canonical.{max_representations, encode_plaintext, decode_plaintext}
use clipy_si_core.Record.Canonical.Layout.{IsSized}
use clipy_si_core.Record.Canonical.Unique.{encode_plaintext-decode_plaintext}
use clipy_si_core.Record.Words.{isize_mod}
use clipy_si_core.Record.Vault.{
  as_key32, opens_to, verify_master, info_cclip, verifier_plaintext, seal_record, open_record,
  make_vault_manifest, verify_passphrase,
}
use clipy_si_core.Record.Vault.Seal.{seal_record-ok, open_record-seal_record}
use clipy_si_core.Record.Vault.Manifest.{verify_passphrase-make_vault_manifest}
use clipy_si_core.Text.{Bytes, IsByte}

module _ (ops : CryptoOps) where
  -- A record that opens: its key has 32 bytes, the box opens under the subkey, and what it held
  -- decodes to the record.
  open_record-ok :
      (key body : Bytes) (p : RecordPlaintext)
      → open_record ops key body ≡ ok p
      → (length key ≡ key_len)
        × (opened : Bytes) × (local_open ops (hkdf_subkey ops key info_cclip) body ≡ ok opened)
        × (decode_plaintext opened ≡ ok p)
  unfolding open_record as_key32
  open_record-ok key body p h =
      elim (Result-cases (local_open ops (hkdf_subkey ops key info_cclip) body)) [
        | inl (opened, e) ↦ (ground (arith, e), opened, e, ground (arith, e))
        | inr (x, e) ↦ absurd (ground (arith, e))
      ]

  -- The plaintext of a sealed record is shorter than the body.
  seal_record-fits :
      (key nonce body : Bytes) (p : RecordPlaintext)
      → length body < isize_mod
      → seal_record ops key nonce p ≡ ok body
      → length (encode_plaintext p) < isize_mod
  seal_record-fits key nonce body p bound h =
      let (k, s) = seal_record-ok ops key nonce body p h in
      let (o, l, n) =
        local_open-local_seal ops (hkdf_subkey ops key info_cclip) nonce (encode_plaintext p) body
          s in
      omega (arith, l)

  module _ (auth : IsAuthentic ops) where
    -- A record that opens was sealed.
    seal_record-open_record :
        (key body : Bytes) (p : RecordPlaintext)
        → All IsByte body
        → length body < isize_mod
        → open_record ops key body ≡ ok p
        → (seal_record ops key (take nonce_len body) p ≡ ok body)
          × IsSized p
          × (length p.representations ≤ max_representations)
    unfolding seal_record as_key32
    seal_record-open_record key body p b bound h =
        let (k, opened, o, d) = open_record-ok key body p h in
        let sub = hkdf_subkey ops key info_cclip in
        let s = local_seal-local_open ops auth sub body opened o in
        let (back, l, n) = local_open-local_seal ops sub (take nonce_len body) opened body s in
        let (e, sized, few) =
          encode_plaintext-decode_plaintext opened p
            (local_open-IsByte ops auth sub body opened b o) (omega (arith, l)) d in
        (rw ((==_iff (length key) key_len).1 k) (rw e s), sized, few)

    -- For an authenticated cipher and a body of bytes that fits the address space: a body opens to
    -- a record exactly if it is what sealing that record under the same key and some nonce returns,
    -- and the record is within the limits of the format: valid strings, lengths that fit a `u32`,
    -- at most 4096 representations.
    pub open_record_iff :
        (key body : Bytes) (p : RecordPlaintext)
        → All IsByte body
        → length body < isize_mod
        → (open_record ops key body ≡ ok p) ↔ (
            (nonce : Bytes) × (seal_record ops key nonce p ≡ ok body)
            × IsSized p
            × (length p.representations ≤ max_representations))
    open_record_iff key body p b bound = (
      λ h.
          let (s, sized, few) = seal_record-open_record key body p b bound h in
          (take nonce_len body, s, sized, few),
      λ (nonce, s, sized, few).
          open_record-seal_record ops key nonce body p sized few
            (seal_record-fits key nonce body p bound s) s,
    )

    module _ {Uuid : Type 0} where
      verify_passphrase-opens :
          (key : Bytes) (m : VaultManifest Uuid)
          → verify_passphrase ops key m ≡ true
          → (length key ≡ key_len)
            × (local_open ops (hkdf_subkey ops key info_cclip) m.verifier ≡ ok verifier_plaintext)
      unfolding verify_passphrase as_key32 verify_master opens_to
      verify_passphrase-opens key m h =
          elim (Result-cases (local_open ops (hkdf_subkey ops key info_cclip) m.verifier)) [
            | inl (opened, e) ↦
                let same = eq_bytes→ opened verifier_plaintext (ground (arith, e)) in
                (ground (arith, e), e ∙ ap ok same)
            | inr (x, e) ↦ absurd (ground (arith, e))
          ]

      -- For an authenticated cipher and a manifest of the frozen version: a key is accepted exactly
      -- if making a manifest with it and some nonce, the other fields being the same, returns this
      -- manifest.
      pub verify_passphrase_iff :
          (key : Bytes) (m : VaultManifest Uuid)
          → m.format_version ≡ vault_format_version
          → (verify_passphrase ops key m ≡ true) ↔ (
              (nonce : Bytes) × (make_vault_manifest ops key m.vault_id m.created_at m.kdf nonce
                ≡ ok m))
      unfolding make_vault_manifest as_key32
      verify_passphrase_iff key m v = (
        λ h.
            (let (k, o) = verify_passphrase-opens key m h in
              let s =
                local_seal-local_open ops auth (hkdf_subkey ops key info_cclip) m.verifier
                  verifier_plaintext o in
              (
                take nonce_len m.verifier,
                rw ((==_iff (length key) key_len).1 k)
                    (rw s (ap (λ n. ok (record m { format_version = n })) (sym v))),
              )),
        λ (nonce, e).
            verify_passphrase-make_vault_manifest ops key m.vault_id m.created_at m.kdf nonce m e,
      )
