-- ===== src/Ffi/Records.antt =====
-- The mirrors of the key derivation's and the plaintext's types in crates/clipy-si-core-ffi/src/lib.rs.
use clipy_si_core.Common.{ℕ, Bool, Option, List, map}
use clipy_si_core.Kdf.{KdfKind, KdfDescriptor}
use clipy_si_core.Kdf
use clipy_si_core.Record.{RecordRepresentation, RecordPlaintext}
use clipy_si_core.Text.{Bytes, Chars}

pub data KdfKindFfi : Type 0 where
  pbkdf2_hmac_sha256 : ℕ → KdfKindFfi

abbrev pub to_kind : KdfKindFfi → KdfKind
to_kind (pbkdf2_hmac_sha256 iterations) = Kdf.pbkdf2_hmac_sha256 iterations

-- The `match` of `manifest_kdf`.
abbrev pub from_kind : KdfKind → KdfKindFfi
from_kind (Kdf.pbkdf2_hmac_sha256 iterations) = pbkdf2_hmac_sha256 iterations

pub record KdfDescriptorFfi : Type 0 where
  pub kind : KdfKindFfi
  pub salt : Bytes
  pub kdf_version : ℕ

abbrev pub to_descriptor : KdfDescriptorFfi → KdfDescriptor
to_descriptor d = record { kind = to_kind d.kind; salt = d.salt; kdf_version = d.kdf_version }

pub record RecordRepresentationFfi : Type 0 where
  pub uttype : Chars
  pub content : Bytes

abbrev pub from_representation : RecordRepresentation → RecordRepresentationFfi
from_representation r = record { uttype = r.uttype; content = r.content }

abbrev pub to_representation : RecordRepresentationFfi → RecordRepresentation
to_representation r = record { uttype = r.uttype; content = r.content }

pub record RecordPlaintextFfi : Type 0 where
  pub title : Chars
  pub primary_type : Chars
  pub source_bundle : Option Chars
  pub is_color_code : Bool
  pub representations : List RecordRepresentationFfi

abbrev pub from_plaintext : RecordPlaintext → RecordPlaintextFfi
from_plaintext p = record {
  title = p.title;
  primary_type = p.primary_type;
  source_bundle = p.source_bundle;
  is_color_code = p.is_color_code;
  representations = map from_representation p.representations;
}

abbrev pub to_plaintext : RecordPlaintextFfi → RecordPlaintext
to_plaintext p = record {
  title = p.title;
  primary_type = p.primary_type;
  source_bundle = p.source_bundle;
  is_color_code = p.is_color_code;
  representations = map to_representation p.representations;
}
