-- ===== src/Record/Canonical/Grammar.antt =====
-- The documents of the format, and that decode_plaintext is the parser of exactly those.
use clipy_si_core.Common.{
  ℕ, zero, suc, ◌≤◌, ◌<◌, ◌≡◌, ◌↔◌, refl, sym, ap, subst, ◌∙◌, Bool, true, false, Option, none,
  some, [], inl, inr, arith, length, All, get_elem?, get_range,
}
use clipy_si_core.Common.Result.{Result, ok, err, ◌>>=◌, ok_or, Result-cases}
use clipy_si_core.Error.{CoreError, unsupported_format}
use clipy_si_core.Text.{Bytes, Chars, IsByte, from_utf8}
use clipy_si_core.Record.{RecordPlaintext}
use clipy_si_core.Record.Words.{isize_mod, checked_add}
use clipy_si_core.Record.Canonical.{
  Reader, max_representations, read_u8, read_slice, read_u32, read_bytes, string_of, read_string,
  flag_of, read_flag, optional_string, read_source_bundle, read_representation,
  read_representations, read_capped, finish, encode_plaintext, decode_count, decode_plaintext,
}
use clipy_si_core.Record.Canonical.Layout.{layout, IsSized, encode_plaintext-layout}
use clipy_si_core.Record.Canonical.RoundTrip.{decode_plaintext-encode_plaintext}
use clipy_si_core.Record.Canonical.Unique.{encode_plaintext-decode_plaintext}

-- The bytes are the documented layout of the plaintext, whose strings are valid, whose lengths fit
-- a `u32`, and which has at most 4096 representations.
pub record IsDocument (bytes : Bytes) (p : RecordPlaintext) : Type 0 where
  pub written : bytes ≡ layout p []
  pub sized : IsSized p
  pub few : length p.representations ≤ max_representations

-- The one error of the reader.
abbrev Refuses {ℓ} : {A : Type ℓ} → Result A CoreError → Type 0
Refuses (ok a) = Unit {0}
Refuses (err e) = e ≡ unsupported_format

>>=-Refuses :
    {A B : Type 0} (r : Result A CoreError) (f : A → Result B CoreError)
    → Refuses r
    → ((a : A) → Refuses (f a))
    → Refuses (r >>= f)
>>=-Refuses (ok a) f h k = k a
>>=-Refuses (err e) f h k = h

ok_or-Refuses : {A : Type 0} (o : Option A) → Refuses (ok_or o unsupported_format)
ok_or-Refuses none = refl
ok_or-Refuses (some a) = tt

read_u8-Refuses : (r : Reader) → Refuses (read_u8 r)
unfolding read_u8
read_u8-Refuses r = >>=-Refuses _ _ (ok_or-Refuses (get_elem? r.buf r.position)) (λ b. tt)

read_slice-Refuses : (len : ℕ) (r : Reader) → Refuses (read_slice len r)
unfolding read_slice
read_slice-Refuses len r =
    >>=-Refuses _ _ (ok_or-Refuses (checked_add r.position len))
      (λ end. >>=-Refuses _ _ (ok_or-Refuses (get_range r.buf r.position end)) (λ slice. tt))

read_u32-Refuses : (r : Reader) → Refuses (read_u32 r)
unfolding read_u32
read_u32-Refuses r = >>=-Refuses _ _ (read_slice-Refuses 4 r) (λ (slice, q). tt)

read_bytes-Refuses : (r : Reader) → Refuses (read_bytes r)
unfolding read_bytes
read_bytes-Refuses r = >>=-Refuses _ _ (read_u32-Refuses r) (λ (len, q). read_slice-Refuses len q)

string_of-Refuses : (bytes : Bytes) (r : Reader) → Refuses (string_of bytes r)
unfolding string_of
string_of-Refuses bytes r = >>=-Refuses _ _ (ok_or-Refuses (from_utf8 bytes)) (λ s. tt)

read_string-Refuses : (r : Reader) → Refuses (read_string r)
unfolding read_string
read_string-Refuses r =
    >>=-Refuses _ _ (read_bytes-Refuses r) (λ (bytes, q). string_of-Refuses bytes q)

flag_of-Refuses : (b : ℕ) (r : Reader) → Refuses (flag_of b r)
unfolding flag_of
flag_of-Refuses b r = ground arith

read_flag-Refuses : (r : Reader) → Refuses (read_flag r)
unfolding read_flag
read_flag-Refuses r = >>=-Refuses _ _ (read_u8-Refuses r) (λ (b, q). flag_of-Refuses b q)

optional_string-Refuses : (b : Bool) (r : Reader) → Refuses (optional_string b r)
unfolding optional_string
optional_string-Refuses false r = tt
optional_string-Refuses true r = >>=-Refuses _ _ (read_string-Refuses r) (λ (s, q). tt)

read_source_bundle-Refuses : (r : Reader) → Refuses (read_source_bundle r)
unfolding read_source_bundle
read_source_bundle-Refuses r =
    >>=-Refuses _ _ (read_flag-Refuses r) (λ (b, q). optional_string-Refuses b q)

read_representation-Refuses : (r : Reader) → Refuses (read_representation r)
unfolding read_representation
read_representation-Refuses r =
    >>=-Refuses _ _ (read_string-Refuses r)
      (λ (s, q). >>=-Refuses _ _ (read_bytes-Refuses q) (λ (c, q'). tt))

read_representations-Refuses : (n : ℕ) (r : Reader) → Refuses (read_representations n r)
unfolding read_representations
read_representations-Refuses zero r = tt
read_representations-Refuses (suc n) r =
    >>=-Refuses _ _ (read_representation-Refuses r)
      (λ (rep, q). >>=-Refuses _ _ (read_representations-Refuses n q) (λ (reps, q'). tt))

read_capped-Refuses : (n : ℕ) (r : Reader) → Refuses (read_capped n r)
unfolding read_capped
read_capped-Refuses n r = ground (arith, read_representations-Refuses n r)

finish-Refuses : (p : RecordPlaintext) (r : Reader) → Refuses (finish p r)
unfolding finish
finish-Refuses p r = ground arith

decode_count-Refuses :
    (title primary_type : Chars) (bundle : Option Chars) (color : Bool) (r : Reader)
    → Refuses (decode_count title primary_type bundle color r)
unfolding decode_count
decode_count-Refuses title primary_type bundle color r =
    >>=-Refuses _ _ (read_u32-Refuses r)
      (λ (n, q). >>=-Refuses _ _ (read_capped-Refuses n q) (λ (reps, q'). finish-Refuses _ q'))

decode_plaintext-Refuses : (bytes : Bytes) → Refuses (decode_plaintext bytes)
unfolding decode_plaintext
decode_plaintext-Refuses bytes =
    >>=-Refuses _ _ (read_string-Refuses (record { buf = bytes; position = 0 })) (λ (title, q).
      >>=-Refuses _ _ (read_string-Refuses q) (λ (primary_type, q).
        >>=-Refuses _ _ (read_source_bundle-Refuses q) (λ (bundle, q).
          >>=-Refuses _ _ (read_flag-Refuses q)
            (λ (color, q). decode_count-Refuses title primary_type bundle color q))))

pub decode_plaintext-err :
    (bytes : Bytes) (x : CoreError) → decode_plaintext bytes ≡ err x → x ≡ unsupported_format
decode_plaintext-err bytes x e = subst Refuses e (decode_plaintext-Refuses bytes)

module _ (bytes : Bytes) (b : All IsByte bytes) (bound : length bytes < isize_mod) where
  decode-IsDocument : (p : RecordPlaintext) → decode_plaintext bytes ≡ ok p → IsDocument bytes p
  decode-IsDocument p h =
      let (e, s, few) = encode_plaintext-decode_plaintext bytes p b bound h in
      record { written = sym e ∙ encode_plaintext-layout p s; sized = s; few = few }

  IsDocument-decode : (p : RecordPlaintext) → IsDocument bytes p → decode_plaintext bytes ≡ ok p
  IsDocument-decode p d =
      let e : bytes ≡ encode_plaintext p = d.written ∙ sym (encode_plaintext-layout p d.sized) in
      ap decode_plaintext e
      ∙ decode_plaintext-encode_plaintext p d.sized d.few (
          let l : length (encode_plaintext p) ≡ length bytes =
            ap (λ (s : Bytes). length s) (sym e) in
          omega (arith, l))

  -- On bytes that fit the address space, `decode_plaintext` returns a plaintext exactly if the
  -- bytes are a document of the format for it, and refuses them as an unsupported format exactly if
  -- they are a document for none.
  pub decode_plaintext_iff :
      (p : RecordPlaintext)
      → ((decode_plaintext bytes ≡ ok p) ↔ IsDocument bytes p)
        × ((decode_plaintext bytes ≡ err unsupported_format)
            ↔ ¬ ((q : RecordPlaintext) × IsDocument bytes q))
  decode_plaintext_iff p = (
    (decode-IsDocument p, IsDocument-decode p),
    (
      λ h (q, d). (let e = IsDocument-decode q d in cc),
      λ none_fits. elim (Result-cases (decode_plaintext bytes)) [
        | inl (q, e) ↦ absurd (none_fits (q, decode-IsDocument q e))
        | inr (x, e) ↦ e ∙ ap err (decode_plaintext-err bytes x e)
      ],
    ),
  )
