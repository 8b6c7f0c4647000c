-- ===== src/Record/Canonical/Unique.antt =====
-- What decode_plaintext accepts.
use clipy_si_core.Common.{
  ℕ, zero, suc, ◌≤◌, ◌<◌, ◌≡◌, refl, sym, ap, ◌∙◌, Bool, true, false, Option, none, some, List, [],
  ◌∷◌, ◌++◌, arith, length, length-drop, All, OnSome,
}
use clipy_si_core.Common.Result.{Result, ok, ◌>>=◌, >>=-eq-ok}
use clipy_si_core.Error.{CoreError}
use clipy_si_core.Text.{Bytes, Chars, IsByte, as_bytes}
use clipy_si_core.Record.{RecordRepresentation, RecordPlaintext}
use clipy_si_core.Record.Words.{isize_mod, to_le_bytes}
use clipy_si_core.Record.Canonical.{
  Reader, Read, max_representations, read_string, read_bytes, read_flag, read_u32,
  read_source_bundle, optional_string, read_representation, read_representations, read_capped,
  finish, flag, encode_plaintext, decode_count, decode_plaintext,
}
use clipy_si_core.Record.Canonical.Reads.{rest}
use clipy_si_core.Record.Canonical.Layout.{
  frame, bundle_layout, reps_layout, IsField, IsRepresentation, IsSized, encode_plaintext-layout,
}
use clipy_si_core.Record.Canonical.Takes.{
  IsReading, Took, Took-trans, read_u32-Took, read_bytes-Took, read_string-Took, read_flag-Took,
}

bundle-Took :
    (r : Reader) (o : Option Chars) (r' : Reader)
    → IsReading r
    → read_source_bundle r ≡ ok (o, r')
    → Took r (bundle_layout o) r' × OnSome IsField o
unfolding read_source_bundle
bundle-Took r o r' i h =
    let ((b, q), m, e) = >>=-eq-ok (read_flag r) (λ (b, q). optional_string b q) h in
    let t = read_flag-Took r b q i m in optional b q t o e
  where
    optional :
        (b : Bool) (q : Reader)
        → Took r (λ t. flag b ∷ t) q
        → (o : Option Chars) → optional_string b q ≡ ok (o, r')
        → Took r (bundle_layout o) r' × OnSome IsField o
    optional false q t none e = let eq : r' ≡ q = ground arith in rw eq (t, tt)
    optional false q t (some s) e = cc
    optional true q t o e =
        let ((s, q'), m, e') = >>=-eq-ok (read_string q) (λ (s, q'). ok (some s, q')) e in
        let (u, f) = read_string-Took q s q' t.1 m in
        let eq : (o ≡ some s) × (r' ≡ q') = (ground arith, ground arith) in
        rw (eq.0, eq.1) (Took-trans r q q' (λ t. 1 ∷ t) (frame (as_bytes s)) t u, f)

abbrev content_after : Chars → Reader → Read RecordRepresentation
content_after s q = read_bytes q >>= λ (c, q'). ok (record { uttype = s; content = c }, q')

abbrev more_representations : ℕ → RecordRepresentation → Reader → Read (List RecordRepresentation)
more_representations n rep q = read_representations n q >>= λ (more, q'). ok (rep ∷ more, q')

rep-Took :
    (r : Reader) (rep : RecordRepresentation) (r' : Reader)
    → IsReading r
    → read_representation r ≡ ok (rep, r')
    → Took r (λ t. frame (as_bytes rep.uttype) (frame rep.content t)) r' × IsRepresentation rep
unfolding read_representation
rep-Took r rep r' i h =
    let ((s, q), m, e) = >>=-eq-ok (read_string r) (λ (s, q). content_after s q) h in
    let (t, f) = read_string-Took r s q i m in
    let ((c, q'), m', e') =
      >>=-eq-ok (read_bytes q) (λ (c, q'). ok (record { uttype = s; content = c }, q')) e in
    let (u, small) = read_bytes-Took q c q' t.1 m' in
    let eq : (rep ≡ record { uttype = s; content = c }) × (r' ≡ q') =
      (ground arith, ground arith) in
    rw (eq.0, eq.1) (Took-trans r q q' (frame (as_bytes s)) (frame c) t u, (f, small))

reps-Took :
    (n : ℕ) (r : Reader) (reps : List RecordRepresentation) (r' : Reader)
    → IsReading r
    → read_representations n r ≡ ok (reps, r')
    → Took r (reps_layout reps) r' × All IsRepresentation reps × (length reps ≡ n)
unfolding read_representations
reps-Took zero r reps r' i h =
    let eq : (reps ≡ []) × (r' ≡ r) = (ground arith, ground arith) in
    rw (eq.0, eq.1) ((refl, i, refl), tt, refl)
reps-Took (suc n) r reps r' i h =
    let ((rep, q), m, e) =
      >>=-eq-ok (read_representation r) (λ (rep, q). more_representations n rep q) h in
    let (t, f) = rep-Took r rep q i m in
    let ((more, q'), m', e') =
      >>=-eq-ok (read_representations n q) (λ (more, q'). ok (rep ∷ more, q')) e in
    let (u, fs, len) = reps-Took n q more q' t.1 m' in
    let eq : (reps ≡ rep ∷ more) × (r' ≡ q') = (ground arith, ground arith) in
    rw (eq.0, eq.1)
      (
        Took-trans r q q' (λ t. frame (as_bytes rep.uttype) (frame rep.content t))
            (reps_layout more) t u,
        (f, fs),
        ap suc len,
      )

abbrev after_bundle : Chars → Chars → Option Chars → Reader → Result RecordPlaintext CoreError
after_bundle title primary bundle r =
    read_flag r >>= λ (color, r). decode_count title primary bundle color r

abbrev after_type : Chars → Chars → Reader → Result RecordPlaintext CoreError
after_type title primary r =
    read_source_bundle r >>= λ (bundle, r). after_bundle title primary bundle r

abbrev after_title : Chars → Reader → Result RecordPlaintext CoreError
after_title title r = read_string r >>= λ (primary, r). after_type title primary r

abbrev plaintext : Chars → Chars → Option Chars → Bool → List RecordRepresentation → RecordPlaintext
plaintext title primary_type source_bundle color reps = record {
  title = title;
  primary_type = primary_type;
  source_bundle = source_bundle;
  is_color_code = color;
  representations = reps;
}

nil_of_length : (xs : Bytes) → length xs ≡ 0 → xs ≡ []
nil_of_length [] h = refl
nil_of_length (x ∷ xs) h = absurd (omega arith)

capped-lem :
    (n : ℕ) (r : Reader) (k : List RecordRepresentation × Reader)
    → read_capped n r ≡ ok k
    → (read_representations n r ≡ ok k) × (n ≤ max_representations)
unfolding read_capped
capped-lem n r k h = ground arith

finish-lem : (p q : RecordPlaintext) (r : Reader) → finish p r ≡ ok q → (q ≡ p) × (rest r ≡ [])
unfolding finish
finish-lem p q r h =
    let e : r.position ≡ length r.buf = ground arith in
    (ground arith, nil_of_length (rest r) (omega (arith, length-drop r.position r.buf)))

abbrev finish_with :
    Chars
    → Chars
    → Option Chars
    → Bool
    → List RecordRepresentation × Reader
    → Result RecordPlaintext CoreError
finish_with title primary_type source_bundle color (reps, r) =
    finish (plaintext title primary_type source_bundle color reps) r

count-Unique :
    (title primary_type : Chars) (source_bundle : Option Chars) (color : Bool) (r : Reader)
    (p : RecordPlaintext)
    → IsReading r
    → decode_count title primary_type source_bundle color r ≡ ok p
    → (reps : List RecordRepresentation) × (p
        ≡ plaintext title primary_type source_bundle color reps)
      × (rest r ≡ to_le_bytes (length reps) ++ reps_layout reps [])
      × All IsRepresentation reps
      × (length reps ≤ max_representations)
unfolding decode_count
count-Unique title primary_type source_bundle color r p i h =
    let last = finish_with title primary_type source_bundle color in
    let ((n, q), m, e) = >>=-eq-ok (read_u32 r) (λ (n, q). read_capped n q >>= last) h in
    let (t, small) = read_u32-Took r n q i m in
    let ((reps, q'), m', e') = >>=-eq-ok (read_capped n q) last e in
    let (m'', few) = capped-lem n q (reps, q') m' in
    let (u, fs, len) = reps-Took n q reps q' t.1 m'' in
    let (eq, done) = finish-lem (plaintext title primary_type source_bundle color reps) p q' e' in
    (
      reps,
      eq,
      t.0
          ∙ ap (λ (s : Bytes). to_le_bytes n ++ s) (u.0 ∙ ap (reps_layout reps) done)
          ∙ ap (λ (k : ℕ). to_le_bytes k ++ reps_layout reps []) (sym len),
      fs,
      omega arith,
    )

-- If decode_plaintext accepts bytes that fit the address space, they are the canonical encoding of
-- its result, byte for byte; that has valid strings and lengths that fit a `u32`, and at most 4096
-- representations.
pub encode_plaintext-decode_plaintext :
    (bytes : Bytes) (p : RecordPlaintext)
    → All IsByte bytes
    → length bytes < isize_mod
    → decode_plaintext bytes ≡ ok p
    → (encode_plaintext p ≡ bytes) × IsSized p × (length p.representations ≤ max_representations)
unfolding decode_plaintext
encode_plaintext-decode_plaintext bytes p b l h =
    let r0 : Reader = record { buf = bytes; position = 0 } in
    let ((title, q1), m1, h1) = >>=-eq-ok (read_string r0) (λ (title, r). after_title title r) h in
    let (t1, f1) = read_string-Took r0 title q1 ((omega arith, l), b) m1 in
    let ((primary, q2), m2, h2) =
      >>=-eq-ok (read_string q1) (λ (primary, r). after_type title primary r) h1 in
    let (t2, f2) = read_string-Took q1 primary q2 t1.1 m2 in
    let ((bundle, q3), m3, h3) =
      >>=-eq-ok (read_source_bundle q2) (λ (bundle, r). after_bundle title primary bundle r) h2 in
    let (t3, f3) = bundle-Took q2 bundle q3 t2.1 m3 in
    let ((color, q4), m4, h4) =
      >>=-eq-ok (read_flag q3) (λ (color, r). decode_count title primary bundle color r) h3 in
    let t4 = read_flag-Took q3 color q4 t3.1 m4 in
    let (reps, eq, e5, fs, few) = count-Unique title primary bundle color q4 p t4.1 h4 in
    let sized : IsSized (plaintext title primary bundle color reps) = record {
      title = f1;
      primary_type = f2;
      source_bundle = f3;
      representations = fs;
      count = omega arith;
    } in
    rw eq (
      encode_plaintext-layout (plaintext title primary bundle color reps) sized
          ∙ sym (
              t1.0
              ∙ ap (frame (as_bytes title)) (
                  t2.0
                  ∙ ap (frame (as_bytes primary)) (
                      t3.0
                      ∙ ap (bundle_layout bundle) (t4.0 ∙ ap (λ (s : Bytes). flag color ∷ s) e5)))),
      sized,
      few,
    )
