-- ===== src/Ffi/Wire.antt =====
-- A record on its way from one device to another through the binding.
use clipy_si_core.Common.{◌≤◌, ◌<◌, ◌≡◌, refl, ap, false, some, List, [], ◌∷◌, map, arith, length}
use clipy_si_core.Common.Result.{Result, ok, map_err}
use clipy_si_core.Error.{CoreError}
use clipy_si_core.Extern.Crypto.{CryptoOps}
use clipy_si_core.Extern.Json.{JsonOps}
use clipy_si_core.Extern.Uuid.{UuidOps}
use clipy_si_core.Ffi.{from_core_error, RecordEnvelopeFfi, from_envelope, to_envelope}
use clipy_si_core.Ffi.Laws.{decode_envelope-encode_envelope_ffi}
use clipy_si_core.Ffi.Records.{
  RecordRepresentationFfi, RecordPlaintextFfi, from_representation, to_representation,
  from_plaintext, to_plaintext,
}
use clipy_si_core.Ffi.Vault
use clipy_si_core.Record.{RecordEnvelope}
use clipy_si_core.Record.Canonical.{max_representations, encode_plaintext}
use clipy_si_core.Record.Canonical.Layout.{IsSized}
use clipy_si_core.Record.Vault as Core
use clipy_si_core.Record.Vault.Seal.{open_record-seal_record}
use clipy_si_core.Record.Words.{u32_mod, isize_mod}
use clipy_si_core.Text.{Bytes}

representations_back :
    (rs : List RecordRepresentationFfi) → map from_representation (map to_representation rs) ≡ rs
representations_back [] = refl
representations_back (r ∷ rs) = ap (◌∷◌ r) (representations_back rs)

pub from_plaintext-to_plaintext : (p : RecordPlaintextFfi) → from_plaintext (to_plaintext p) ≡ p
from_plaintext-to_plaintext p = ground (arith, representations_back p.representations)

map_err-ok :
    {A : Type 0} (r : Result A CoreError) (a : A) → map_err r from_core_error ≡ ok a → r ≡ ok a
map_err-ok r a h = ground arith

module _ (ops : CryptoOps) where
  -- A plaintext of the binding that it sealed opens through it under the same key to that
  -- plaintext, if its strings are valid, its lengths fit a `u32`, it has at most 4096
  -- representations and its encoding fits the address space.
  pub open_record-seal_record_ffi :
      (key nonce box : Bytes) (p : RecordPlaintextFfi)
      → IsSized (to_plaintext p)
      → length (to_plaintext p).representations ≤ max_representations
      → length (encode_plaintext (to_plaintext p)) < isize_mod
      → Vault.seal_record ops key nonce p ≡ ok box
      → Vault.open_record ops key box ≡ ok p
  unfolding Vault.seal_record Vault.open_record
  open_record-seal_record_ffi key nonce box p s few bound h =
      let sealed = map_err-ok (Core.seal_record ops key nonce (to_plaintext p)) box h in
      rw (open_record-seal_record ops key nonce box (to_plaintext p) s few bound sealed)
        (ap ok (from_plaintext-to_plaintext p))

  -- If the binding sealed a plaintext within the limits of the format and encoded an envelope with
  -- that body, whose UUIDs parse and whose header's JSON is shorter than 2^32 bytes, then the bytes
  -- decode through it to a live envelope with that body, and the body opens under the same key to
  -- the plaintext.
  pub open_record-decode_envelope_ffi :
      {Uuid : Type 0} ⦃u : UuidOps Uuid⦄ (json : JsonOps Uuid) (key nonce box bytes : Bytes)
      (p : RecordPlaintextFfi) (e : RecordEnvelopeFfi) (env : RecordEnvelope Uuid)
      → IsSized (to_plaintext p)
      → length (to_plaintext p).representations ≤ max_representations
      → length (encode_plaintext (to_plaintext p)) < isize_mod
      → length (json.header_to_vec env.header) < u32_mod
      → Vault.seal_record ops key nonce p ≡ ok box
      → e.body ≡ some box
      → to_envelope e ≡ ok env
      → Vault.encode_envelope json e ≡ ok bytes
      → (d : RecordEnvelopeFfi) × (Vault.decode_envelope json bytes ≡ ok d)
        × (d.header.deleted ≡ false)
        × (d.body ≡ some box)
        × (Vault.open_record ops key box ≡ ok p)
  open_record-decode_envelope_ffi json key nonce box bytes p e env s few bound small sealed b t h =
      let (v, live, dec) = decode_envelope-encode_envelope_ffi json e env bytes t small h in
      let body : env.body ≡ some box = ground (arith, t, b) in
      (
        from_envelope env,
        dec,
        ground (arith, live, body),
        body,
        open_record-seal_record_ffi key nonce box p s few bound sealed,
      )
