-- ===== src/Sync/Library.antt =====
-- The library of one device: what it knows of each record, and what receiving an envelope does to
-- it. The two lookups by content and the two by record that fill a LocalState are what its comments
-- in crates/clipy-si-core/src/sync/mod.rs say. The shell that carries a MergeAction out is a
-- parameter: `LibraryShell` states what the comments on MergeAction ask of it.
pub mod Content
pub mod Arrival
pub mod Runs
use clipy_si_core.Common.{
  ◌≡◌, Bool, true, false, not, ◌&&◌, Option, none, some, List, [], ◌∷◌, Ordering, any, keep, map,
  eq_bytes, if◌then◌else◌,
}
use clipy_si_core.Extern.Uuid.{UuidOps}
use clipy_si_core.Record.{Hlc, RecordHeader}
use clipy_si_core.Sync.{
  hlc_compare, LocalState, MergeAction, apply_remote, apply_tombstone, record_tombstone_only, skip,
  skip_duplicate_content, merge_decide,
}
use clipy_si_core.Text.{Chars}

-- A record that is known: with a live row, deleted, or never inserted because of its content.
pub data Status : Type 0 where
  live deleted suppressed : Status

-- `hlc` is the stamp of the record, or of its tombstone once it is deleted.
pub record Entry (Uuid : Type 0) : Type 0 where
  pub id : Uuid
  pub sync_hash : Chars
  pub hlc : Hlc Uuid
  pub status : Status

abbrev pub Library : Type 0 → Type 0
Library Uuid = List (Entry Uuid)

abbrev pub is_live : Status → Bool
is_live live = true
is_live deleted = false
is_live suppressed = false

abbrev pub is_deleted : Status → Bool
is_deleted live = false
is_deleted deleted = true
is_deleted suppressed = false

module _ {Uuid : Type 0} where
  abbrev pub entry_of : RecordHeader Uuid → Status → Entry Uuid
  entry_of h status = record {
    id = h.record_id;
    sync_hash = h.sync_hash;
    hlc = h.hlc;
    status = status;
  }

module _ {Uuid : Type 0} ⦃u : UuidOps Uuid⦄ where
  -- `==` of UUIDs.
  abbrev pub same_id : Uuid → Uuid → Bool
  same_id a b = eq_bytes (u.as_bytes a) (u.as_bytes b)

  abbrev pub is_entry_of : RecordHeader Uuid → Entry Uuid → Bool
  is_entry_of h e = same_id e.id h.record_id

  -- A different record with the same content.
  abbrev pub is_duplicate : RecordHeader Uuid → Entry Uuid → Bool
  is_duplicate h e = not (same_id e.id h.record_id) && eq_bytes e.sync_hash h.sync_hash

  abbrev pub is_live_duplicate : RecordHeader Uuid → Entry Uuid → Bool
  is_live_duplicate h e = is_duplicate h e && is_live e.status

  abbrev pub is_wiped_duplicate : RecordHeader Uuid → Entry Uuid → Bool
  is_wiped_duplicate h e = is_duplicate h e && is_deleted e.status

  abbrev pub later : Hlc Uuid → Option (Hlc Uuid) → Hlc Uuid
  later a none = a
  later a (some b) = elim (hlc_compare a b) [ Ordering.gt ↦ a | _ ↦ b ]

  -- The newest stamp.
  pub newest : Library Uuid → Option (Hlc Uuid)
  newest [] = none
  newest (e ∷ es) = some (later e.hlc (newest es))

  -- What the shell tells `merge_decide`.
  pub summary : Library Uuid → RecordHeader Uuid → LocalState Uuid
  summary lib h = record {
    applied = any (is_entry_of h) lib;
    applied_deleted = any (λ e. is_entry_of h e && is_deleted e.status) lib;
    live_duplicate_sync_hash = any (is_live_duplicate h) lib;
    tombstoned_duplicate_hlc = newest (keep (is_wiped_duplicate h) lib);
  }

  abbrev pub bury : RecordHeader Uuid → Entry Uuid → Entry Uuid
  bury h e = if is_entry_of h e then record e { status = deleted; hlc = h.hlc } else e

  abbrev pub decision : Library Uuid → RecordHeader Uuid → MergeAction
  decision lib h = merge_decide (summary lib h) h.deleted h.hlc

-- What the shell does for each action: a row is inserted, deleted, or only noted as deleted, and
-- a suppressed record is noted, so that its file is not read again.
pub record LibraryShell (Uuid : Type 0) ⦃u : UuidOps Uuid⦄ : Type 0 where
  pub execute : MergeAction → RecordHeader Uuid → Library Uuid → Library Uuid
  pub inserts :
      (h : RecordHeader Uuid) (lib : Library Uuid)
      → execute apply_remote h lib ≡ entry_of h live ∷ lib
  pub buries :
      (h : RecordHeader Uuid) (lib : Library Uuid)
      → execute apply_tombstone h lib ≡ map (bury h) lib
  pub notes_deleted :
      (h : RecordHeader Uuid) (lib : Library Uuid)
      → execute record_tombstone_only h lib ≡ entry_of h deleted ∷ lib
  pub skips : (h : RecordHeader Uuid) (lib : Library Uuid) → execute skip h lib ≡ lib
  pub suppresses :
      (h : RecordHeader Uuid) (lib : Library Uuid)
      → execute skip_duplicate_content h lib ≡ entry_of h suppressed ∷ lib

module _ {Uuid : Type 0} ⦃u : UuidOps Uuid⦄ (s : LibraryShell Uuid) where
  pub receive : Library Uuid → RecordHeader Uuid → Library Uuid
  receive lib h = s.execute (decision lib h) h lib

  pub receive_all : Library Uuid → List (RecordHeader Uuid) → Library Uuid
  receive_all lib [] = lib
  receive_all lib (h ∷ hs) = receive_all (receive lib h) hs
