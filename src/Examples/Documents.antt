-- ===== src/Examples/Documents.antt =====
-- A document of the plaintext format.
use clipy_si_core.Common.{◌≡◌, ◌↔◌}
use clipy_si_core.Common.Result.{ok, err}
use clipy_si_core.Error.{unsupported_format}
use clipy_si_core.Examples.Formats.{clip, clip_bytes, clip_fits}
use clipy_si_core.Record.{RecordPlaintext}
use clipy_si_core.Record.Canonical.{encode_plaintext, decode_plaintext}
use clipy_si_core.Record.Canonical.Grammar.{IsDocument, decode_plaintext_iff}

decode_plaintext_iff_example :
    ((decode_plaintext (encode_plaintext clip) ≡ ok clip) ↔ IsDocument (encode_plaintext clip) clip)
    × ((decode_plaintext (encode_plaintext clip) ≡ err unsupported_format)
        ↔ ¬ ((q : RecordPlaintext) × IsDocument (encode_plaintext clip) q))
decode_plaintext_iff_example =
    decode_plaintext_iff (encode_plaintext clip) clip_bytes clip_fits clip
