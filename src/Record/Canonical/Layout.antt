-- ===== src/Record/Canonical/Layout.antt =====
-- The layout that the comment in canonical.rs draws, against encode_plaintext.
use clipy_si_core.Common.{
  ℕ, ◌%◌, ◌<◌, ◌≡◌, refl, sym, ap, ◌∙◌, Option, none, some, List, [], ◌∷◌, ◌++◌, arith, length,
  append_assoc, append-nil, All, OnSome,
}
use clipy_si_core.Text.{Bytes, Chars, IsScalar, as_bytes}
use clipy_si_core.Record.{RecordRepresentation, RecordPlaintext}
use clipy_si_core.Record.Words.{u32_mod, to_le_bytes}
use clipy_si_core.Record.Canonical.{
  put_bytes, put_source_bundle, put_representations, flag, encode_plaintext,
}

-- A length and that many bytes, in front of `t`.
abbrev pub frame : Bytes → Bytes → Bytes
frame xs t = to_le_bytes (length xs) ++ (xs ++ t)

abbrev pub bundle_layout : Option Chars → Bytes → Bytes
bundle_layout none t = 0 ∷ t
bundle_layout (some s) t = 1 ∷ frame (as_bytes s) t

abbrev pub reps_layout : List RecordRepresentation → Bytes → Bytes
reps_layout [] t = t
reps_layout (rep ∷ reps) t = frame (as_bytes rep.uttype) (frame rep.content (reps_layout reps t))

abbrev pub layout : RecordPlaintext → Bytes → Bytes
layout p t = frame (as_bytes p.title) (
    frame (as_bytes p.primary_type) (
      bundle_layout p.source_bundle (
        flag p.is_color_code
        ∷ (to_le_bytes (length p.representations) ++ reps_layout p.representations t))))

-- A string whose length in bytes fits a `u32`.
abbrev pub IsField : Chars → Type 0
IsField s = All IsScalar s × (length (as_bytes s) < u32_mod)

abbrev pub IsRepresentation : RecordRepresentation → Type 0
IsRepresentation rep = IsField rep.uttype × (length rep.content < u32_mod)

-- Valid strings, and lengths that fit a `u32`.
pub record IsSized (p : RecordPlaintext) : Type 0 where
  pub title : IsField p.title
  pub primary_type : IsField p.primary_type
  pub source_bundle : OnSome IsField p.source_bundle
  pub representations : All IsRepresentation p.representations
  pub count : length p.representations < u32_mod

small_mod : (n : ℕ) → n < u32_mod → n % u32_mod ≡ n
small_mod n h = omega arith

put_bytes-frame :
    (out xs t : Bytes) → length xs < u32_mod → put_bytes out xs ++ t ≡ out ++ frame xs t
unfolding put_bytes
put_bytes-frame out xs t h = rw (small_mod (length xs) h) (simp append_assoc)

put_source_bundle-layout :
    (out : Bytes) (o : Option Chars) (t : Bytes)
    → OnSome IsField o
    → put_source_bundle out o ++ t ≡ out ++ bundle_layout o t
unfolding put_source_bundle
put_source_bundle-layout out none t h = append_assoc out (0 ∷ []) t
put_source_bundle-layout out (some s) t h =
    put_bytes-frame (out ++ 1 ∷ []) (as_bytes s) t h.1
    ∙ append_assoc out (1 ∷ []) (frame (as_bytes s) t)

put_representations-layout :
    (out : Bytes) (reps : List RecordRepresentation) (t : Bytes)
    → All IsRepresentation reps
    → put_representations out reps ++ t ≡ out ++ reps_layout reps t
unfolding put_representations
put_representations-layout out [] t h = refl
put_representations-layout out (rep ∷ reps) t h =
    put_representations-layout (put_bytes (put_bytes out (as_bytes rep.uttype)) rep.content) reps t
      h.1
    ∙ put_bytes-frame (put_bytes out (as_bytes rep.uttype)) rep.content (reps_layout reps t) h.0.1
    ∙ put_bytes-frame out (as_bytes rep.uttype) (frame rep.content (reps_layout reps t)) h.0.0.1

-- The encoder writes the documented layout.
pub encode_plaintext-layout : (p : RecordPlaintext) → IsSized p → encode_plaintext p ≡ layout p []
unfolding encode_plaintext
encode_plaintext-layout p s =
    sym (append-nil (encode_plaintext p))
    ∙ put_representations-layout o4 p.representations [] s.representations
    ∙ append_assoc o3 (to_le_bytes (length p.representations % u32_mod)) reps
    ∙ ap (λ (n : ℕ). o3 ++ (to_le_bytes n ++ reps)) (small_mod (length p.representations) s.count)
    ∙ append_assoc o2 (flag p.is_color_code ∷ []) (to_le_bytes (length p.representations) ++ reps)
    ∙ put_source_bundle-layout o1 p.source_bundle tail2 s.source_bundle
    ∙ put_bytes-frame (put_bytes [] (as_bytes p.title)) (as_bytes p.primary_type) tail1
        s.primary_type.1
    ∙ put_bytes-frame [] (as_bytes p.title) (frame (as_bytes p.primary_type) tail1) s.title.1
  where
    reps : Bytes
    reps = reps_layout p.representations []

    tail2 : Bytes
    tail2 = flag p.is_color_code ∷ (to_le_bytes (length p.representations) ++ reps)

    tail1 : Bytes
    tail1 = bundle_layout p.source_bundle tail2

    o1 : Bytes
    o1 = put_bytes (put_bytes [] (as_bytes p.title)) (as_bytes p.primary_type)

    o2 : Bytes
    o2 = put_source_bundle o1 p.source_bundle

    o3 : Bytes
    o3 = o2 ++ flag p.is_color_code ∷ []

    o4 : Bytes
    o4 = o3 ++ to_le_bytes (length p.representations % u32_mod)
