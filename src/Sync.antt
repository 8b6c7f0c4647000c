-- ===== src/Sync.antt =====
-- crates/clipy-si-core/src/sync/mod.rs: the pure decisions of folder sync.
-- Its children are about the clock (Order, Next, Receive, History), merging (Merge) and garbage
-- collection (Gc). Multiplications that the source leaves unchecked wrap, as in a release build.
pub mod Order
pub mod Next
pub mod Receive
pub mod History
pub mod Causality
pub mod Network
pub mod Merge
pub mod Gc
pub mod Lifecycle
pub mod Library
mod Examples
mod Deliveries
mod Folder
mod Tests
use clipy_si_core.Common.{
  ℕ, ◌+◌, ◌*◌, Ordering, Bool, true, false, not, ◌&&◌, Option, none, some, List, ltb, leb, all,
  keep, if◌then◌else◌,
}
use clipy_si_core.Common.Int.{
  ℤ, pos, i64_min, leb_ℤ, ltb_ℤ, ◌==ℤ◌, cmp_ℤ, max_ℤ, min_ℤ, saturating_add, saturating_sub,
  wrapping_mul,
}
use clipy_si_core.Common.Linear.{◌then◌, cmp_bytes}
use clipy_si_core.Extern.Uuid.{UuidOps}
use clipy_si_core.Record.{Hlc}

abbrev pub tombstone_retention_secs : ℕ
tombstone_retention_secs = 3_024_000

abbrev pub stale_device_secs : ℕ
stale_device_secs = 2_592_000

abbrev pub max_drift_millis : ℕ
max_drift_millis = 86_400_000

abbrev pub u32_max : ℕ
u32_max = 0xffff_ffff

-- `u32::checked_add(1)` and `u32::saturating_add(1)`.
abbrev checked_succ : ℕ → Option ℕ
checked_succ c = if ltb c u32_max then some (c + 1) else none

abbrev saturating_succ : ℕ → ℕ
saturating_succ c = if ltb c u32_max then c + 1 else u32_max

-- What the shell knows locally about one incoming record.
pub record LocalState (Uuid : Type 0) : Type 0 where
  pub applied : Bool
  pub applied_deleted : Bool
  pub live_duplicate_sync_hash : Bool
  pub tombstoned_duplicate_hlc : Option (Hlc Uuid)

pub data MergeAction : Type 0 where
  apply_remote apply_tombstone record_tombstone_only skip skip_duplicate_content : MergeAction

pub record DevicePresence : Type 0 where
  pub last_seen_secs : ℤ

pub data RejoinAction : Type 0 where
  delete_locally repush : RejoinAction

received_counter : Option ℕ → Option ℕ → ℕ
received_counter (some a) (some b) = saturating_succ (if leb a b then b else a)
received_counter (some a) none = saturating_succ a
received_counter none (some b) = saturating_succ b
received_counter none none = 0

module _ {Uuid : Type 0} where
  hlc_advance : Hlc Uuid → ℤ → Option ℕ → Uuid → Hlc Uuid
  hlc_advance prev wall (some counter) node = record {
    wall_millis = wall;
    counter = counter;
    node = node;
  }
  hlc_advance prev wall none node = record {
    wall_millis = saturating_add wall (pos 1);
    counter = 0;
    node = node;
  }

  -- The next stamp that this device issues.
  pub hlc_next : Option (Hlc Uuid) → ℤ → Uuid → Hlc Uuid
  unfolding hlc_advance
  hlc_next none now_millis node = record { wall_millis = now_millis; counter = 0; node = node }
  hlc_next (some prev) now_millis node =
      let wall = max_ℤ prev.wall_millis now_millis in
      if wall ==ℤ prev.wall_millis
      then hlc_advance prev wall (checked_succ prev.counter) node
      else record { wall_millis = wall; counter = 0; node = node }

  local_part : Option (Hlc Uuid) → ℤ → Option ℕ
  local_part none wall = none
  local_part (some l) wall = if l.wall_millis ==ℤ wall then some l.counter else none

  local_wall : Option (Hlc Uuid) → ℤ
  local_wall none = i64_min
  local_wall (some l) = l.wall_millis

  -- Merges a received stamp into the local clock, its wall clamped to `now + max_drift_millis`.
  pub hlc_receive : Option (Hlc Uuid) → Hlc Uuid → ℤ → Uuid → Hlc Uuid
  unfolding local_part local_wall received_counter
  hlc_receive loc remote now_millis node =
      let remote_wall =
        min_ℤ remote.wall_millis (saturating_add now_millis (pos max_drift_millis)) in
      let wall = max_ℤ (max_ℤ (local_wall loc) remote_wall) now_millis in
      let remote_part = if remote_wall ==ℤ wall then some remote.counter else none in
      record {
        wall_millis = wall;
        counter = received_counter (local_part loc wall) remote_part;
        node = node;
      }

pub device_is_stale : ℤ → ℤ → Bool
device_is_stale last_seen_secs now_secs =
    ltb_ℤ (pos stale_device_secs) (saturating_sub now_secs last_seen_secs)

pub rejoin_action : ℤ → ℤ → RejoinAction
rejoin_action self_last_seen_secs now_secs =
    if device_is_stale self_last_seen_secs now_secs then delete_locally else repush

module _ {Uuid : Type 0} where
  -- May this tombstone file be removed from the provider?
  pub gc_eligible : Hlc Uuid → List DevicePresence → ℤ → Bool
  gc_eligible tombstone_hlc devices now_secs =
      let age_millis = saturating_sub (wrapping_mul now_secs 1000) tombstone_hlc.wall_millis in
      if leb_ℤ age_millis (pos (tombstone_retention_secs * 1000))
      then false
      else all (λ d. leb_ℤ tombstone_hlc.wall_millis (wrapping_mul d.last_seen_secs 1000))
          (keep (λ d. not (device_is_stale d.last_seen_secs now_secs)) devices)

module _ {Uuid : Type 0} ⦃u : UuidOps Uuid⦄ where
  -- Total order over stamps: wall, counter, node bytes.
  pub hlc_compare : Hlc Uuid → Hlc Uuid → Ordering
  hlc_compare a b =
      cmp_ℤ a.wall_millis b.wall_millis
      then Prim.Native.Nat.compare a.counter b.counter
      then cmp_bytes (u.as_bytes a.node) (u.as_bytes b.node)

  -- `hlc_compare(remote, tomb) != Greater` for the newest tombstone of the same content.
  covered_by_wipe : Hlc Uuid → Option (Hlc Uuid) → Bool
  covered_by_wipe remote_hlc none = false
  covered_by_wipe remote_hlc (some tomb_hlc) = elim (hlc_compare remote_hlc tomb_hlc) [
    | Ordering.gt ↦ false
    | _ ↦ true
  ]

  -- Decides what to do with one incoming envelope.
  pub merge_decide : LocalState Uuid → Bool → Hlc Uuid → MergeAction
  unfolding covered_by_wipe
  merge_decide loc remote_deleted remote_hlc =
      if loc.applied
      then if remote_deleted && not loc.applied_deleted then apply_tombstone else skip
      else if remote_deleted
      then record_tombstone_only
      else if covered_by_wipe remote_hlc loc.tombstoned_duplicate_hlc
      then skip_duplicate_content
      else if loc.live_duplicate_sync_hash
      then skip_duplicate_content
      else apply_remote
