-- ===== src/Record/Envelope/Wire.antt =====
-- The decoder on a length, a header's JSON, a flag and a tail.
use clipy_si_core.Common.{
  ℕ, ◌+◌, ◌-◌, ◌%◌, ◌<◌, ◌≡◌, refl, sym, ap, ◌∙◌, false, Option, none, some, [], ◌∷◌, ◌++◌, arith,
  length, length-append, take, drop, take-append, drop-append, get_elem?, get_elem?-drop, get_range,
  get_from, append_assoc, ◌==◌, if◌then◌else◌, ltb,
}
use clipy_si_core.Common.Result.{Result, ok, err, ◌>>=◌}
use clipy_si_core.Error.{CoreError, unsupported_format}
use clipy_si_core.Extern.Json.{JsonOps}
use clipy_si_core.Record.{RecordHeader, RecordEnvelope, record_format_version}
use clipy_si_core.Record.Words.{
  u32_mod, to_le_bytes, from_le_bytes, from_le_bytes-to_le_bytes, checked_add,
}
use clipy_si_core.Record.Envelope.{decode_envelope, decode_at, decode_body, is_some, same}
use clipy_si_core.Text.{Bytes}

-- Reads at the end of a front part.
module _ (l t : Bytes) (n : ℕ) (e : n ≡ length l) where
  drop_front : drop n (l ++ t) ≡ t
  drop_front = rw e (drop-append l t)

  get_elem?_front : get_elem? (l ++ t) n ≡ get_elem? t 0
  get_elem?_front = get_elem?-drop n (l ++ t) ∙ ap (λ s. get_elem? s 0) drop_front

get_range_middle :
    (a b c : Bytes) (i j : ℕ)
    → i ≡ length a
    → j ≡ length a + length b
    → get_range (a ++ (b ++ c)) i j ≡ some b
get_range_middle a b c i j p q = ground (arith, sliced, length-append a (b ++ c), length-append b c)
  where
    sliced : take (j - i) (drop i (a ++ (b ++ c))) ≡ b
    sliced =
        ap (take (j - i)) (drop_front a (b ++ c) i p)
        ∙ ap (λ (k : ℕ). take k (b ++ c)) (let k : j - i ≡ length b = omega arith in k)
        ∙ take-append b c

-- The wire bytes of a header's JSON, a flag and what follows it.
abbrev pub wire : Bytes → ℕ → Bytes → Bytes
wire header_json flag tail =
    to_le_bytes (length header_json % u32_mod) ++ (header_json ++ (flag ∷ tail))

module _ {Uuid : Type 0} (json : JsonOps Uuid) where
  abbrev pub finished : RecordHeader Uuid → Option Bytes → Result (RecordEnvelope Uuid) CoreError
  finished header body =
      if same (is_some body) header.deleted
      then err unsupported_format
      else ok (record { header = header; body = body })

  abbrev pub body_of : ℕ → Bytes → Result (Option Bytes) CoreError
  body_of flag tail =
      if flag == 0 then ok none else if flag == 1 then ok (some tail) else err unsupported_format

  module _ (header_json : Bytes) (header : RecordHeader Uuid)
      (parsed : json.header_from_slice header_json ≡ some header) (flag : ℕ) (tail : Bytes)
      (small : length header_json < u32_mod) where
    le : Bytes
    le = to_le_bytes (length header_json % u32_mod)

    small_mod : length header_json % u32_mod ≡ length header_json
    small_mod = omega arith

    header_length : from_le_bytes le ≡ length header_json
    unfolding le
    header_length =
        from_le_bytes-to_le_bytes (length header_json % u32_mod) (omega arith) ∙ small_mod

    header_slice :
        get_range (wire header_json flag tail) 4 (4 + length header_json) ≡ some header_json
    unfolding le
    header_slice =
        get_range_middle le header_json (flag ∷ tail) 4 (4 + length header_json) refl refl

    front : wire header_json flag tail ≡ (le ++ header_json) ++ (flag ∷ tail)
    unfolding le
    front = sym (append_assoc le header_json (flag ∷ tail))

    flag_at : get_elem? (wire header_json flag tail) (4 + length header_json) ≡ some flag
    unfolding le
    flag_at = rw front (
        get_elem?_front (le ++ header_json) (flag ∷ tail) (4 + length header_json)
          (omega (arith, length-append le header_json)))

    tail_at : get_from (wire header_json flag tail) (4 + length header_json + 1) ≡ some tail
    unfolding le
    tail_at = ground (
      arith,
      drop_front ((le ++ header_json) ++ (flag ∷ [])) tail (4 + length header_json + 1) (
          omega
            (arith, length-append le header_json, length-append (le ++ header_json) (flag ∷ []))),
      append_assoc (le ++ header_json) (flag ∷ []) tail,
      front,
      length-append le (header_json ++ (flag ∷ tail)),
      length-append header_json (flag ∷ tail),
    )

    body_at :
        decode_body (wire header_json flag tail) (4 + length header_json) flag ≡ body_of flag tail
    unfolding decode_body
    body_at = ground (arith, tail_at)

    header_end :
        checked_add 4 (from_le_bytes (take 4 (wire header_json flag tail)))
        ≡ some (4 + length header_json)
    unfolding le
    header_end =
        let e : from_le_bytes (take 4 (wire header_json flag tail)) ≡ length header_json =
          header_length in
        ap (checked_add 4) e ∙ ground arith

    long : ltb (length (wire header_json flag tail)) 5 ≡ false
    long = ground (arith, length-append header_json (flag ∷ tail))

    decode_at_lem : decode_at json (wire header_json flag tail) (4 + length header_json) ≡ (
        if header.format_version == record_format_version
        then body_of flag tail >>= finished header
        else err unsupported_format)
    unfolding decode_at
    decode_at_lem =
        rw (header_slice, parsed, decode_at) (rw (flag_at, body_at, decode_at) (ground arith))

    -- The decoder's answer on such bytes.
    pub decode_wire : decode_envelope json (wire header_json flag tail) ≡ (
        if header.format_version == record_format_version
        then body_of flag tail >>= finished header
        else err unsupported_format)
    unfolding decode_envelope
    decode_wire = rw (long, header_end, decode_envelope) decode_at_lem
