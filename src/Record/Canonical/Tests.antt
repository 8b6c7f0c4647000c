-- ===== src/Record/Canonical/Tests.antt =====
-- The unit tests of crates/clipy-si-core/src/record/canonical.rs, each the test of what it asserts.
use clipy_si_core.Common.{◌≡◌, refl, Bool, true, false, ◌&&◌, none, [], ◌∷◌, ◌++◌}
use clipy_si_core.Common.Result.{is_err}
use clipy_si_core.Error.{unsupported_format, same_error}
use clipy_si_core.Text.{as_bytes, from_utf8}
use clipy_si_core.Record.Words.{to_le_bytes}
use clipy_si_core.Record.Canonical.{encode_plaintext, decode_plaintext}

rejects_absurd_rep_count : Bool
unfolding decode_plaintext from_utf8
rejects_absurd_rep_count =
    let buf = to_le_bytes 0 in
    let buf = buf ++ to_le_bytes 0 in
    let buf = buf ++ 0 ∷ [] in
    let buf = buf ++ 0 ∷ [] in
    let buf = buf ++ to_le_bytes 0xffff_ffff in
    is_err same_error (decode_plaintext buf) unsupported_format

rejects_trailing_garbage : Bool
unfolding decode_plaintext encode_plaintext from_utf8 as_bytes
rejects_trailing_garbage =
    let buf = encode_plaintext (record {
      title = b'x' ∷ [];
      primary_type = b't' ∷ [];
      source_bundle = none;
      is_color_code = false;
      representations = [];
    }) in
    let buf = buf ++ 0xff ∷ [] in is_err same_error (decode_plaintext buf) unsupported_format

tests_pass : rejects_absurd_rep_count && rejects_trailing_garbage ≡ true
unfolding rejects_absurd_rep_count rejects_trailing_garbage
tests_pass = refl
