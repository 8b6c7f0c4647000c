-- ===== src/Ffi/Laws.antt =====
-- What crosses the binding.
use clipy_si_core.Common.{
  ◌≡◌, ◌≢◌, ◌<◌, refl, sym, subst, ap, ◌∙◌, ◌⊎◌, Bool, true, not, Option, List, arith, length, All,
}
use clipy_si_core.Common.Int.{ℤ}
use clipy_si_core.Common.Result.{Result, ok, err, ◌>>=◌, map_err, >>=-eq-ok}
use clipy_si_core.Error.{CoreError}
use clipy_si_core.Extern.Crypto.{CryptoOps}
use clipy_si_core.Extern.Json.{JsonOps}
use clipy_si_core.Extern.Uuid.{UuidOps}
use clipy_si_core.Ffi.{
  CoreErrorFfi, invalid_input, unknown, from_core_error, RecordEnvelopeFfi, HlcFfi, from_envelope,
  to_envelope, parse_uuid,
}
use clipy_si_core.Ffi.Records.{KdfDescriptorFfi, to_descriptor, from_kind}
use clipy_si_core.Ffi.Sync
use clipy_si_core.Ffi.Vault
use clipy_si_core.Kdf.{KdfDescriptor}
use clipy_si_core.Record.{RecordEnvelope, record_format_version}
use clipy_si_core.Record.Envelope.{is_some}
use clipy_si_core.Record.Envelope
use clipy_si_core.Record.Envelope.Laws.{decode_envelope-IsLive, decode_envelope-encode_envelope}
use clipy_si_core.Record.Vault as Core
use clipy_si_core.Record.Vault.Manifest.{
  verify_passphrase-make_vault_manifest, make_vault_manifest-ok,
}
use clipy_si_core.Record.Vault.Devices.{decode_made}
use clipy_si_core.Record.Words.{u32_mod}
use clipy_si_core.Text.{Bytes, Chars, IsByte}

-- The descriptor that `manifest_kdf` builds.
abbrev from_descriptor : KdfDescriptor → KdfDescriptorFfi
from_descriptor d = record { kind = from_kind d.kind; salt = d.salt; kdf_version = d.kdf_version }

from_descriptor-to_descriptor : (d : KdfDescriptorFfi) → from_descriptor (to_descriptor d) ≡ d
from_descriptor-to_descriptor d = ground arith

-- The binding tells the core's errors apart, and none of them is the catch-all.
pub from_core_error-injective :
    (a b : CoreError)
    → (from_core_error a ≡ from_core_error b → a ≡ b) × (from_core_error a ≢ unknown)
from_core_error-injective a b = ground arith

module _ {Uuid : Type 0} ⦃u : UuidOps Uuid⦄ where
  -- Every envelope of the core, turned into the binding's with its UUIDs as text, is turned back
  -- into itself.
  pub to_envelope-from_envelope : (e : RecordEnvelope Uuid) → to_envelope (from_envelope e) ≡ ok e
  to_envelope-from_envelope e = ground (
    arith,
    u.parse_str-to_string e.header.record_id,
    u.parse_str-to_string e.header.origin_device_id,
    u.parse_str-to_string e.header.hlc.node,
  )

  module _ (json : JsonOps Uuid) where
    -- If the binding encodes an envelope whose UUIDs parse and whose header's JSON is shorter than
    -- 2^32 bytes, then it has the frozen version and a body exactly if it is not deleted, and the
    -- binding decodes the bytes to that envelope.
    pub decode_envelope-encode_envelope_ffi :
        (e : RecordEnvelopeFfi) (env : RecordEnvelope Uuid) (bytes : Bytes)
        → to_envelope e ≡ ok env
        → length (json.header_to_vec env.header) < u32_mod
        → Vault.encode_envelope json e ≡ ok bytes
        → (env.header.format_version ≡ record_format_version)
          × (is_some env.body ≡ not env.header.deleted)
          × (Vault.decode_envelope json bytes ≡ ok (from_envelope env))
    unfolding Vault.encode_envelope Vault.decode_envelope
    decode_envelope-encode_envelope_ffi e env bytes m small h =
        let h1 : checked ≡ ok bytes = subst (λ r. (r >>= (λ env. checked_of env)) ≡ ok bytes) m h in
        let (dec, m2, h2) =
          >>=-eq-ok
            (map_err (Envelope.decode_envelope json (Envelope.encode_envelope json env))
              from_core_error)
            (λ dec. ok (Envelope.encode_envelope json env)) h1 in
        let d = encoded dec m2 in
        let (v, b, l) = decode_envelope-IsLive json (Envelope.encode_envelope json env) env d in
        let out : Envelope.encode_envelope json env ≡ bytes = ground (arith, h2) in
        (v, b, ap (λ s. Vault.decode_envelope json s) (sym out) ∙ rw d refl)
      where
        checked_of : RecordEnvelope Uuid → Result Bytes CoreErrorFfi
        checked_of env =
            map_err (Envelope.decode_envelope json (Envelope.encode_envelope json env))
              from_core_error
            >>= (λ dec. ok (Envelope.encode_envelope json env))

        checked : Result Bytes CoreErrorFfi
        checked = checked_of env

        encoded :
            (dec : RecordEnvelope Uuid)
            → map_err
                (Envelope.decode_envelope json (Envelope.encode_envelope json env))
                from_core_error
              ≡ ok dec
            → Envelope.decode_envelope json (Envelope.encode_envelope json env) ≡ ok env
        encoded dec h = ground (arith, h, decode_envelope-encode_envelope json env small)

    module _ (ops : CryptoOps) where
      -- If the binding makes `vault.json` with a salt and a nonce of bytes, then it accepts the
      -- same key for that document and reads the same descriptor from it.
      pub verify_passphrase-make_vault_manifest_ffi :
          (key : Bytes) (id : Chars) (t : ℤ) (kdf : KdfDescriptorFfi) (nonce bytes : Bytes)
          → All IsByte kdf.salt
          → All IsByte nonce
          → Vault.make_vault_manifest json ops key id t kdf nonce ≡ ok bytes
          → (Vault.verify_passphrase json ops key bytes ≡ ok true)
            × (Vault.manifest_kdf json bytes ≡ ok kdf)
      unfolding Vault.make_vault_manifest Vault.verify_passphrase Vault.manifest_kdf
      verify_passphrase-make_vault_manifest_ffi key id t kdf nonce bytes bs bn h =
          let (id', m1, h1) = >>=-eq-ok (parse_uuid id) (λ i. after i) h in
          let (m, m2, h2) =
            >>=-eq-ok
              (map_err (Core.make_vault_manifest ops key id' t (to_descriptor kdf) nonce)
                from_core_error)
              (λ m. ok (Core.encode_vault_manifest json m)) h1 in
          let made : Core.make_vault_manifest ops key id' t (to_descriptor kdf) nonce ≡ ok m =
            ground (arith, m2) in
          let out : Core.encode_vault_manifest json m ≡ bytes = ground (arith, h2) in
          let d : Core.decode_vault_manifest json bytes ≡ ok m =
            ap (Core.decode_vault_manifest json) (sym out)
            ∙ decode_made ops json key id' t (to_descriptor kdf) nonce m bs bn made in
          let (k, v, e, s) =
            make_vault_manifest-ok ops key id' t (to_descriptor kdf) nonce m made in
          (
            rw d (
                ap ok (
                  verify_passphrase-make_vault_manifest ops key id' t (to_descriptor kdf) nonce m
                    made)),
            rw d (ap ok (ap from_descriptor e ∙ from_descriptor-to_descriptor kdf)),
          )
        where
          after : Uuid → Result Bytes CoreErrorFfi
          after i =
              map_err (Core.make_vault_manifest ops key i t (to_descriptor kdf) nonce)
                from_core_error
              >>= (λ m. ok (Core.encode_vault_manifest json m))

module _ (Uuid : Type 0) ⦃u : UuidOps Uuid⦄ where
  -- A call on stamps fails only on text that is no UUID: an invalid input.
  pub sync_errors :
      (a b : HlcFfi) (prev : Option HlcFfi) (now : ℤ) (node : Chars) (s : Sync.LocalStateFfi)
      (deleted : Bool) (secs : List ℤ) (e : CoreErrorFfi)
      → (Sync.hlc_next Uuid prev now node ≡ err e)
        ⊎ (Sync.hlc_receive Uuid prev a now node ≡ err e)
        ⊎ (Sync.hlc_compare Uuid a b ≡ err e)
        ⊎ (Sync.merge_decide Uuid s deleted a ≡ err e)
        ⊎ (Sync.gc_eligible Uuid a secs now ≡ err e)
      → e ≡ invalid_input
  unfolding Sync.hlc_next Sync.hlc_receive Sync.hlc_compare Sync.merge_decide Sync.gc_eligible
  sync_errors a b prev now node s deleted secs e h = ground arith
