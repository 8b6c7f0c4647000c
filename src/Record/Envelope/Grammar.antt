-- ===== src/Record/Envelope/Grammar.antt =====
-- The wire documents of the envelope, and that decode_envelope is the parser of exactly those.
use clipy_si_core.Common.{
  ℕ, zero, suc, ◌+◌, ◌-◌, ◌%◌, ◌≤◌, ◌<◌, ◌≡◌, ◌↔◌, sym, ap, ap₂, subst, ◌∙◌, not, Option, none,
  some, Option-cases, OnSome, inl, inr, [], ◌∷◌, ◌++◌, arith, length, length-take, length-drop,
  take, drop, drop-drop, take-append-drop, get_elem?, get_range, ◌==◌, if◌then◌else◌, All,
}
use clipy_si_core.Common.Result.{ok, err, ◌>>=◌, Result-cases}
use clipy_si_core.Error.{unsupported_format}
use clipy_si_core.Extern.Json.{JsonOps}
use clipy_si_core.Record.{RecordHeader, RecordEnvelope, record_format_version}
use clipy_si_core.Record.Words.{u32_mod, to_le_bytes, from_le_bytes, to_le_bytes-from_le_bytes}
use clipy_si_core.Record.Envelope.{decode_envelope, decode_at, decode_body, is_some}
use clipy_si_core.Record.Envelope.Laws.{decode_envelope-err}
use clipy_si_core.Record.Envelope.Wire.{body_of, finished, decode_wire}
use clipy_si_core.Text.{Bytes, IsByte}

-- A range that is there, and what stands before and behind it.
split_range :
    (xs : Bytes) (i j : ℕ) (ys : Bytes)
    → get_range xs i j ≡ some ys
    → (i ≤ j) × (j ≤ length xs) × (length ys ≡ j - i) × (xs ≡ take i xs ++ (ys ++ drop j xs))
split_range xs i j ys h =
    let le : i ≤ j = ground arith in
    let fits : j ≤ length xs = ground arith in
    let cut : take (j - i) (drop i xs) ≡ ys = ground arith in
    let behind : drop (j - i) (drop i xs) ≡ drop j xs =
      drop-drop i (j - i) xs ∙ ap (λ (n : ℕ). drop n xs) (omega arith) in
    (
      le,
      fits,
      ap (λ (s : Bytes). length s) (sym cut)
          ∙ omega (arith, length-take (j - i) (drop i xs), length-drop i xs),
      sym (take-append-drop i xs)
          ∙ ap (λ (s : Bytes). take i xs ++ s)
              (sym (take-append-drop (j - i) (drop i xs))
                ∙ ap₂ (λ (r s : Bytes). r ++ s) cut behind),
    )

-- An element that is there, and what stands behind it.
drop_at : (xs : Bytes) (n x : ℕ) → get_elem? xs n ≡ some x → drop n xs ≡ x ∷ drop (suc n) xs
drop_at [] n x h = absurd (let f = h in cc)
drop_at (y ∷ xs) zero x h = ground arith
drop_at (y ∷ xs) (suc n) x h = drop_at xs n x h

-- The length prefix is that of the number read from it.
take_word :
    (xs : Bytes)
    → All IsByte xs
    → 4 ≤ length xs
    → (take 4 xs ≡ to_le_bytes (from_le_bytes (take 4 xs))) × (from_le_bytes (take 4 xs) < u32_mod)
take_word [] b h = absurd (omega arith)
take_word (x ∷ []) b h = absurd (omega arith)
take_word (x ∷ y ∷ []) b h = absurd (omega arith)
take_word (x ∷ y ∷ z ∷ []) b h = absurd (omega arith)
take_word (x ∷ y ∷ z ∷ w ∷ xs) b h =
    (sym (to_le_bytes-from_le_bytes x y z w b.0 b.1.0 b.1.1.0 b.1.1.1.0), omega arith)

abbrev pub presence : Option Bytes → ℕ
presence none = 0
presence (some b) = 1

module _ {Uuid : Type 0} (json : JsonOps Uuid) where
  -- The bytes are a length, that many bytes of JSON for the header, one byte for the presence of a
  -- body, and the body; behind the 0 of a tombstone anything may stand.
  pub record IsWire (bytes : Bytes) (env : RecordEnvelope Uuid) : Type 0 where
    pub header_json : Bytes
    pub tail : Bytes
    pub short : length header_json < u32_mod
    pub written :
        bytes ≡ to_le_bytes (length header_json) ++ (header_json ++ (presence env.body ∷ tail))
    pub parsed : json.header_from_slice header_json ≡ some env.header
    pub version : env.header.format_version ≡ record_format_version
    pub live : is_some env.body ≡ not env.header.deleted
    pub rest : OnSome (λ b. b ≡ tail) env.body

  -- What the parts of a decoded document were.
  record IsRead (bytes : Bytes) (k : ℕ) (env : RecordEnvelope Uuid) : Type 0 where
    header_bytes : Bytes
    flag : ℕ
    header_at : get_range bytes 4 k ≡ some header_bytes
    parsed : json.header_from_slice header_bytes ≡ some env.header
    version : env.header.format_version ≡ record_format_version
    flag_at : get_elem? bytes k ≡ some flag
    body_at : decode_body bytes k flag ≡ ok env.body
    live : is_some env.body ≡ not env.header.deleted

  decode_at-IsRead :
      (bytes : Bytes) (k : ℕ) (env : RecordEnvelope Uuid)
      → decode_at json bytes k ≡ ok env
      → IsRead bytes k env
  unfolding decode_at
  decode_at-IsRead bytes k env h = elim (Option-cases (get_range bytes 4 k)) [
    | inl e ↦ absurd (ground (arith, e))
    | inr (hb, e) ↦ elim (Option-cases (json.header_from_slice hb)) [
      | inl f ↦ absurd (ground (arith, e, f))
      | inr (header, f) ↦ elim (Option-cases (get_elem? bytes k)) [
        | inl g ↦ absurd (ground (arith, e, f, g))
        | inr (flag, g) ↦ elim (Result-cases (decode_body bytes k flag)) [
          | inr (x, b) ↦ absurd (ground (arith, e, f, g, b))
          | inl (body, b) ↦
              let (v, l, whole) = read hb header flag body e f g b in
              subst (IsRead bytes k) whole (record {
                header_bytes = hb;
                flag = flag;
                header_at = e;
                parsed = f;
                version = v;
                flag_at = g;
                body_at = b;
                live = l;
              })
        ]
      ]
    ]
  ]
    where
      read :
          (hb : Bytes) (header : RecordHeader Uuid) (flag : ℕ) (body : Option Bytes)
          → get_range bytes 4 k ≡ some hb
          → json.header_from_slice hb ≡ some header
          → get_elem? bytes k ≡ some flag
          → decode_body bytes k flag ≡ ok body
          → (header.format_version ≡ record_format_version)
            × (is_some body ≡ not header.deleted)
            × (record { header = header; body = body } ≡ env)
      read hb header flag body e f g b = ground (arith, h)

  body_shape :
      (bytes : Bytes) (k flag : ℕ) (body : Option Bytes)
      → decode_body bytes k flag ≡ ok body
      → (flag ≡ presence body) × OnSome (λ b. b ≡ drop (suc k) bytes) body
  unfolding decode_body
  body_shape bytes k flag none h = (ground arith, tt)
  body_shape bytes k flag (some b) h =
      let e : drop (k + 1) bytes ≡ b = ground arith in
      (ground arith, sym e ∙ ap (λ (n : ℕ). drop n bytes) {y = suc k} (omega arith))

  IsRead-IsWire :
      (bytes : Bytes) (env : RecordEnvelope Uuid)
      → All IsByte bytes
      → 4 ≤ length bytes
      → IsRead bytes (4 + from_le_bytes (take 4 bytes)) env
      → IsWire bytes env
  IsRead-IsWire bytes env b long r =
      let k = from_le_bytes (take 4 bytes) in
      let (word, small) = take_word bytes b long in
      let (le, fits, len, split) = split_range bytes 4 (4 + k) r.header_bytes r.header_at in
      let (f, body) = body_shape bytes (4 + k) r.flag env.body r.body_at in
      let l : length r.header_bytes ≡ k = omega arith in
      record {
        header_json = r.header_bytes;
        tail = drop (suc (4 + k)) bytes;
        short = omega arith;
        written =
            split
            ∙ ap₂ (λ (p s : Bytes). p ++ (r.header_bytes ++ s))
                (word ∙ ap (λ n. to_le_bytes n) (sym l))
                (drop_at bytes (4 + k) r.flag r.flag_at ∙ ap (λ n. n ∷ drop (suc (4 + k)) bytes) f);
        parsed = r.parsed;
        version = r.version;
        live = r.live;
        rest = body;
      }

  -- A decoder that answers has read the parts of a document.
  decode_envelope-IsRead :
      (bytes : Bytes) (env : RecordEnvelope Uuid)
      → decode_envelope json bytes ≡ ok env
      → (5 ≤ length bytes) × IsRead bytes (4 + from_le_bytes (take 4 bytes)) env
  unfolding decode_envelope
  decode_envelope-IsRead bytes env h =
      let at : decode_at json bytes (4 + from_le_bytes (take 4 bytes)) ≡ ok env =
        ground (arith, h) in
      (ground (arith, h), decode_at-IsRead bytes (4 + from_le_bytes (take 4 bytes)) env at)

  finish_wire :
      (header : RecordHeader Uuid) (body : Option Bytes) (tail : Bytes)
      → header.format_version ≡ record_format_version
      → is_some body ≡ not header.deleted
      → OnSome (λ b. b ≡ tail) body
      → (if header.format_version == record_format_version
          then body_of json (presence body) tail >>= finished json header
          else err unsupported_format)
        ≡ ok (record { header = header; body = body })
  finish_wire header none tail v l r = ground (arith, v, l)
  finish_wire header (some b) tail v l r = rw (← r) (ground (arith, v, l))

  IsWire-decode :
      (bytes : Bytes) (env : RecordEnvelope Uuid)
      → IsWire bytes env
      → decode_envelope json bytes ≡ ok env
  IsWire-decode bytes env d =
      ap (decode_envelope json) (
        d.written
        ∙ ap (λ n. to_le_bytes n ++ (d.header_json ++ (presence env.body ∷ d.tail)))
            {y = length d.header_json % u32_mod} (omega (arith, d.short)))
      ∙ decode_wire json d.header_json env.header d.parsed (presence env.body) d.tail d.short
      ∙ finish_wire env.header env.body d.tail d.version d.live d.rest

  -- On bytes, `decode_envelope` returns an envelope exactly if the bytes are a document of the wire
  -- format for it, and refuses them as an unsupported format exactly if they are one for none.
  pub decode_envelope_iff :
      (bytes : Bytes) (env : RecordEnvelope Uuid)
      → All IsByte bytes
      → ((decode_envelope json bytes ≡ ok env) ↔ IsWire bytes env)
        × ((decode_envelope json bytes ≡ err unsupported_format)
            ↔ ¬ ((e : RecordEnvelope Uuid) × IsWire bytes e))
  decode_envelope_iff bytes env b = (
    (forth env, IsWire-decode bytes env),
    (
      λ h (e, d). (let f = IsWire-decode bytes e d in cc),
      λ none_fits. elim (Result-cases (decode_envelope json bytes)) [
        | inl (e, f) ↦ absurd (none_fits (e, forth e f))
        | inr (x, f) ↦ f ∙ ap err (decode_envelope-err json bytes x f)
      ],
    ),
  )
    where
      forth : (e : RecordEnvelope Uuid) → decode_envelope json bytes ≡ ok e → IsWire bytes e
      forth e h =
          let (long, r) = decode_envelope-IsRead bytes e h in
          IsRead-IsWire bytes e b (omega arith) r
