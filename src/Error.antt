-- ===== src/Error.antt =====
-- crates/clipy-si-core/src/error.rs: the error type that all fallible operations share.
use Prim.Native.String.{String}
use mathlib.Core.Bool.{Bool, true, false}

pub data CoreError : Type 0 where
  invalid_input decrypt_failed unsupported_format kdf_failed : CoreError

-- `Display`: a category and no value.
pub message : CoreError → String
message invalid_input = "invalid input"
message decrypt_failed = "decryption failed"
message unsupported_format = "unsupported format"
message kdf_failed = "key derivation failed"

-- The derived `==`.
abbrev pub same_error : CoreError → CoreError → Bool
same_error invalid_input invalid_input = true
same_error decrypt_failed decrypt_failed = true
same_error unsupported_format unsupported_format = true
same_error kdf_failed kdf_failed = true
same_error _ _ = false
