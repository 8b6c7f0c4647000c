-- ===== src/Examples/Models.antt =====
-- Models of the laws of the crates, for the runs: a cipher that appends a tag and hides nothing, and
-- documents that are the lists of their numbers.
use clipy_si_core.Common.{
  ℕ, zero, suc, ◌+◌, ◌-◌, ◌≡◌, refl, ap, ◌∙◌, Bool, true, false, Option, none, some, [], ◌∷◌, ◌++◌,
  arith, length, length-append, take, drop, replicate, length-replicate, take-append, drop-append,
  All, eq_bytes, eq_bytes→, Bool-cases, inl, inr, sym, subst, ap₂, take-append-drop,
}
use clipy_si_core.Common.Int.{ℤ, pos, negsuc}
use clipy_si_core.Common.Result.{Result, err}
use clipy_si_core.Extern.Crypto.{CryptoOps, IsAuthentic}
use clipy_si_core.Extern.Json.{JsonOps, JsonFault, refused, ManifestText, read_manifest}
use clipy_si_core.Hex.{HexError}
use clipy_si_core.Kdf.{pbkdf2_hmac_sha256}
use clipy_si_core.Kdf.Laws.{iterations}
use clipy_si_core.Record.{RecordHeader, VaultManifest}
use clipy_si_core.Text.{Bytes, Chars, IsByte}

abbrev pub tag : Bytes
tag = replicate 16 0

abbrev untagged : Bool → Bytes → Option Bytes
untagged true m = some m
untagged false m = none

-- The message in front of the tag, if the tag is there.
abbrev pub checked : Bytes → Option Bytes
checked c = let n = length c - 16 in untagged (eq_bytes (drop n c) tag) (take n c)

untag_length : (m : Bytes) → length (m ++ tag) - 16 ≡ length m
untag_length m = omega (arith, length-append m tag)

pub untag : (m : Bytes) → checked (m ++ tag) ≡ some m
untag m = rw (untag_length m, checked) (rw (drop-append m tag, take-append m tag) refl)

pub bytes-tag : (m : Bytes) → All IsByte m → All IsByte (m ++ tag)
bytes-tag [] h = ground arith
bytes-tag (x ∷ m) h = (h.0, bytes-tag m h.1)

pub bytes-replicate : (n : ℕ) → All IsByte (replicate n 0)
bytes-replicate zero = ground arith
bytes-replicate (suc n) = (omega arith, bytes-replicate n)

pub cipher_inverse : (m c : Bytes) → some (m ++ tag) ≡ some c → checked c ≡ some m
cipher_inverse m c h = let e : m ++ tag ≡ c = ground arith in rw (← e) (untag m)

pub cipher_length : (m c : Bytes) → some (m ++ tag) ≡ some c → length c ≡ length m + 16
cipher_length m c h = let e : m ++ tag ≡ c = ground arith in rw (← e) (length-append m tag)

pub cipher_bytes : (m c : Bytes) → some (m ++ tag) ≡ some c → All IsByte m → All IsByte c
cipher_bytes m c h b = let e : m ++ tag ≡ c = ground arith in rw (← e) (bytes-tag m b)

abbrev pub toy_crypto : CryptoOps
toy_crypto = record {
  encrypt = λ key nonce message. some (message ++ tag);
  decrypt = λ key nonce sealed. checked sealed;
  hmac = λ key payload. replicate 32 0;
  expand = λ key info n. replicate n 0;
  pbkdf2 = λ password salt rounds n. replicate n 7;
  nfc = λ s. s;
  decrypt-encrypt = λ key nonce message sealed h. cipher_inverse message sealed h;
  length-encrypt = λ key nonce message sealed h. cipher_length message sealed h;
  bytes-encrypt = λ key nonce message sealed h b. cipher_bytes message sealed h b;
  length-hmac = λ key payload. refl;
  bytes-hmac = λ key payload. bytes-replicate 32;
  length-expand = λ key info n. length-replicate n 0;
  length-pbkdf2 = λ password salt rounds n. length-replicate n 7;
}

checked_split :
    (c m : Bytes) → checked c ≡ some m → (take (length c - 16) c ≡ m) × (some (m ++ tag) ≡ some c)
checked_split c m h = elim (Bool-cases (eq_bytes (drop (length c - 16) c) tag)) [
  | inl e ↦
      let front : take (length c - 16) c ≡ m = ground (arith, e) in
      let back = eq_bytes→ (drop (length c - 16) c) tag e in
      (
        front,
        ap some (
            ap₂ (λ (x y : Bytes). x ++ y) (sym front) (sym back)
            ∙ take-append-drop (length c - 16) c),
      )
  | inr e ↦ absurd (ground (arith, e))
]

bytes-take : (n : ℕ) (xs : Bytes) → All IsByte xs → All IsByte (take n xs)
bytes-take zero xs h = tt
bytes-take (suc n) [] h = tt
bytes-take (suc n) (x ∷ xs) h = (h.0, bytes-take n xs h.1)

checked_bytes : (c m : Bytes) → checked c ≡ some m → All IsByte c → All IsByte m
checked_bytes c m h b = subst (All IsByte) (checked_split c m h).0 (bytes-take (length c - 16) c b)

-- The tag is checked.
pub toy-IsAuthentic : IsAuthentic toy_crypto
toy-IsAuthentic = record {
  encrypt-decrypt = λ key nonce message sealed k n h. (checked_split sealed message h).1;
  bytes-decrypt = λ key nonce message sealed h b. checked_bytes sealed message h b;
}

abbrev int_to_vec : ℤ → Bytes → Bytes
int_to_vec (pos n) rest = 0 ∷ n ∷ rest
int_to_vec (negsuc n) rest = 1 ∷ n ∷ rest

abbrev int_of : ℕ → ℕ → ℤ
int_of zero n = pos n
int_of (suc k) n = negsuc n

abbrev bool_to_vec : Bool → ℕ
bool_to_vec false = 0
bool_to_vec true = 1

abbrev bool_of : ℕ → Bool
bool_of zero = false
bool_of (suc n) = true

abbrev header_to_vec : RecordHeader ℕ → Bytes
header_to_vec h =
    h.format_version
    ∷ h.record_id
    ∷ h.origin_device_id
    ∷ h.hlc.counter
    ∷ h.hlc.node
    ∷ bool_to_vec h.deleted
    ∷ int_to_vec h.hlc.wall_millis (int_to_vec h.created_at (int_to_vec h.updated_at h.sync_hash))

abbrev header_of : Bytes → Option (RecordHeader ℕ)
header_of (fv ∷ id ∷ origin ∷ counter ∷ node ∷ deleted ∷ w0 ∷ w1 ∷ c0 ∷ c1 ∷ u0 ∷ u1 ∷ hash) =
    some (record {
      format_version = fv;
      record_id = id;
      origin_device_id = origin;
      hlc = record { wall_millis = int_of w0 w1; counter = counter; node = node };
      created_at = int_of c0 c1;
      updated_at = int_of u0 u1;
      deleted = bool_of deleted;
      sync_hash = hash;
    })
header_of bytes = none

pub header_inverse : (h : RecordHeader ℕ) → header_of (header_to_vec h) ≡ some h
header_inverse h = ground arith

abbrev manifest_to_vec : ManifestText ℕ → Bytes
manifest_to_vec t =
    t.format_version
    ∷ t.vault_id
    ∷ t.kdf_version
    ∷ iterations t.kind
    ∷ length t.salt
    ∷ int_to_vec t.created_at (t.salt ++ t.verifier)

abbrev text_of : Bytes → Option (ManifestText ℕ)
text_of (fv ∷ id ∷ version ∷ rounds ∷ len ∷ c0 ∷ c1 ∷ rest) = some (record {
  format_version = fv;
  vault_id = id;
  created_at = int_of c0 c1;
  kind = pbkdf2_hmac_sha256 rounds;
  salt = take len rest;
  kdf_version = version;
  verifier = drop len rest;
})
text_of bytes = none

abbrev manifest_of :
    (Chars → Result Bytes HexError) → Option (ManifestText ℕ) → Result (VaultManifest ℕ) JsonFault
manifest_of read (some t) = read_manifest read t
manifest_of read none = err refused

pub text_inverse : (t : ManifestText ℕ) → text_of (manifest_to_vec t) ≡ some t
text_inverse t = ground (arith, take-append t.salt t.verifier, drop-append t.salt t.verifier)

abbrev pub toy_json : JsonOps ℕ
toy_json = record {
  header_to_vec = header_to_vec;
  header_from_slice = header_of;
  manifest_to_vec = manifest_to_vec;
  manifest_from_slice = λ read bytes. manifest_of read (text_of bytes);
  header_inverse = header_inverse;
  manifest_inverse = λ read t. ap (manifest_of read) (text_inverse t);
}
