-- ===== src/Record/Vault/Errors.antt =====
-- The errors of open_record, by the key and by what the body is.
use clipy_si_core.Common.{
  subst, ◌<◌, ◌≡◌, ◌≢◌, ◌↔◌, refl, ap, ◌∙◌, inl, inr, none, [], false, arith, length, ◌==◌, ==_iff,
  All, Bool-cases,
}
use clipy_si_core.Common.Result.{ok, err, ◌>>=◌, Result-cases}
use clipy_si_core.Crypto.{key_len, local_seal, local_open, hkdf_subkey}
use clipy_si_core.Crypto.Laws.{local_open-cases}
use clipy_si_core.Crypto.Authentic.{local_open_iff, local_open-IsByte, local_open-length}
use clipy_si_core.Error.{invalid_input, decrypt_failed, unsupported_format}
use clipy_si_core.Extern.Crypto.{CryptoOps, IsAuthentic}
use clipy_si_core.Record.{RecordPlaintext}
use clipy_si_core.Record.Canonical.{decode_plaintext}
use clipy_si_core.Record.Canonical.Grammar.{IsDocument, decode_plaintext_iff, decode_plaintext-err}
use clipy_si_core.Record.Words.{isize_mod}
use clipy_si_core.Record.Vault.{as_key32, info_cclip, open_record}
use clipy_si_core.Record.Vault.Seal.{length-hkdf_subkey}
use clipy_si_core.Text.{Bytes, IsByte}

module _ (ops : CryptoOps) (key body : Bytes) where
  -- The body was sealed of the plaintext under the record subkey of the key.
  abbrev pub IsSealOf : Bytes → Type 0
  IsSealOf plaintext =
      (nonce : Bytes) × (local_seal ops (hkdf_subkey ops key info_cclip) nonce plaintext ≡ ok body)

  open_record-key :
      length key ≡ key_len
      → open_record ops key body
        ≡ (local_open ops (hkdf_subkey ops key info_cclip) body >>= decode_plaintext)
  unfolding open_record as_key32
  open_record-key k = rw ((==_iff (length key) key_len).1 k) refl

  open_record-bad_key : length key ≢ key_len → open_record ops key body ≡ err invalid_input
  unfolding open_record as_key32
  open_record-bad_key k = elim (Bool-cases (length key == key_len)) [
    | inl e ↦ absurd (k ((==_iff (length key) key_len).0 e))
    | inr e ↦ rw e refl
  ]

  module _ (auth : IsAuthentic ops) (b : All IsByte body) (bound : length body < isize_mod) where
    -- What opening a record under a right key comes to.
    data Outcome : Type 0 where
      opened :
          (plaintext : Bytes) (p : RecordPlaintext)
          → IsSealOf plaintext
          → IsDocument plaintext p
          → open_record ops key body ≡ ok p
          → Outcome
      garbled :
          (plaintext : Bytes)
          → IsSealOf plaintext
          → ¬ ((p : RecordPlaintext) × IsDocument plaintext p)
          → open_record ops key body ≡ err unsupported_format
          → Outcome
      refused :
          ¬ ((plaintext : Bytes) × IsSealOf plaintext)
          → open_record ops key body ≡ err decrypt_failed
          → Outcome

    open_record-Outcome : length key ≡ key_len → Outcome
    open_record-Outcome k = elim (local_open-cases ops sub body (length-hkdf_subkey ops key)) [
      | inr e ↦
          refused (λ (m, s). (let f = (local_open_iff ops auth sub body m).1 s in cc))
            (open_record-key k ∙ ap (λ r. r >>= decode_plaintext) e)
      | inl (m, e) ↦
          let s = (local_open_iff ops auth sub body m).0 e in
          let step = open_record-key k ∙ ap (λ r. r >>= decode_plaintext) e in
          let grammar =
            decode_plaintext_iff m (local_open-IsByte ops auth sub body m b e) (shorter m e) in
          elim (Result-cases (decode_plaintext m)) [
            | inl (p, d) ↦ opened m p s ((grammar p).0.0 d) (step ∙ d)
            | inr (x, d) ↦
                let none_fits : decode_plaintext m ≡ err unsupported_format =
                  d ∙ ap err (decode_plaintext-err m x d) in
                garbled m s ((grammar no_record).1.0 none_fits) (step ∙ none_fits)
          ]
    ]
      where
        sub : Bytes
        sub = hkdf_subkey ops key info_cclip

        no_record : RecordPlaintext
        no_record = record {
          title = [];
          primary_type = [];
          source_bundle = none;
          is_color_code = false;
          representations = [];
        }

        shorter : (m : Bytes) → local_open ops sub body ≡ ok m → length m < isize_mod
        shorter m e = omega (arith, local_open-length ops auth sub body m e)

    seal_unique : (m n : Bytes) → IsSealOf m → IsSealOf n → m ≡ n
    seal_unique m n p q =
        let e = (local_open_iff ops auth (hkdf_subkey ops key info_cclip) body m).1 p in
        let f = (local_open_iff ops auth (hkdf_subkey ops key info_cclip) body n).1 q in cc

    -- For an authenticated cipher and a body of bytes that fits the address space, opening a record
    -- fails as invalid input exactly under a key of another length than 32; as a failed decryption
    -- exactly if the key is right and the body was sealed of nothing under it; and as an
    -- unsupported format exactly if the body was sealed of bytes that are a document for no record.
    pub open_record_errors :
        ((open_record ops key body ≡ err invalid_input) ↔ (length key ≢ key_len))
        × ((open_record ops key body ≡ err decrypt_failed)
            ↔ ((length key ≡ key_len) × ¬ ((m : Bytes) × IsSealOf m)))
        × ((open_record ops key body ≡ err unsupported_format) ↔ (
            (length key ≡ key_len)
            × (m : Bytes) × IsSealOf m
            × ¬ ((p : RecordPlaintext) × IsDocument m p)))
    open_record_errors = elim (Bool-cases (length key == key_len)) [
      | inr e ↦
          let k : length key ≢ key_len = ground (arith, e) in
          let bad = open_record-bad_key k in
          (
            (λ h. k, λ h. bad),
            (λ h. absurd (let f = bad in cc), λ h. absurd (k h.0)),
            (λ h. absurd (let f = bad in cc), λ h. absurd (k h.0)),
          )
      | inl e ↦
          let k = (==_iff (length key) key_len).0 e in
          elim (open_record-Outcome k) [
            | opened m p s d o ↦ (
              (λ h. absurd (let f = o in cc), λ h. absurd (h k)),
              (λ h. absurd (let f = o in cc), λ h. absurd (h.1 (m, s))),
              (
                λ h. absurd (let f = o in cc),
                λ (right, n, q, other).
                    absurd (other (p, subst (λ x. IsDocument x p) (seal_unique m n s q) d)),
              ),
            )
            | garbled m s n o ↦ (
              (λ h. absurd (let f = o in cc), λ h. absurd (h k)),
              (λ h. absurd (let f = o in cc), λ h. absurd (h.1 (m, s))),
              (λ h. (k, m, s, n), λ h. o),
            )
            | refused n o ↦ (
              (λ h. absurd (let f = o in cc), λ h. absurd (h k)),
              (λ h. (k, n), λ h. o),
              (λ h. absurd (let f = o in cc), λ (right, m, s, other). absurd (n (m, s))),
            )
          ]
    ]
