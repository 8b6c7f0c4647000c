-- ===== src/Ffi/Sync.antt =====
-- The exported sync calls of crates/clipy-si-core-ffi/src/lib.rs. The arms that a `non_exhaustive`
-- type asks for match no value of the core's types.
use clipy_si_core.Common.{Ordering, Bool, Option, List, map}
use clipy_si_core.Common.Int.{ℤ, pos, negsuc}
use clipy_si_core.Common.Result.{Result, ok, ◌>>=◌}
use clipy_si_core.Extern.Uuid.{UuidOps}
use clipy_si_core.Ffi.{CoreErrorFfi, transpose, HlcFfi, parse_uuid, from_hlc, to_hlc}
use clipy_si_core.Sync.{LocalState, MergeAction, DevicePresence, RejoinAction}
use clipy_si_core.Sync
use clipy_si_core.Text.{Chars}

pub record LocalStateFfi : Type 0 where
  pub applied : Bool
  pub applied_deleted : Bool
  pub live_duplicate_sync_hash : Bool
  pub tombstoned_duplicate_hlc : Option HlcFfi

pub data MergeActionFfi : Type 0 where
  apply_remote apply_tombstone record_tombstone_only skip skip_duplicate_content : MergeActionFfi

abbrev pub from_merge_action : MergeAction → MergeActionFfi
from_merge_action Sync.apply_remote = apply_remote
from_merge_action Sync.apply_tombstone = apply_tombstone
from_merge_action Sync.record_tombstone_only = record_tombstone_only
from_merge_action Sync.skip = skip
from_merge_action Sync.skip_duplicate_content = skip_duplicate_content

pub data RejoinActionFfi : Type 0 where
  delete_locally repush : RejoinActionFfi

abbrev pub from_rejoin_action : RejoinAction → RejoinActionFfi
from_rejoin_action Sync.delete_locally = delete_locally
from_rejoin_action Sync.repush = repush

-- The `i8` of an ordering.
abbrev pub sign : Ordering → ℤ
sign Ordering.lt = negsuc 0
sign Ordering.eq = pos 0
sign Ordering.gt = pos 1

abbrev presence : ℤ → DevicePresence
presence s = record { last_seen_secs = s }

module _ {Uuid : Type 0} ⦃u : UuidOps Uuid⦄ where
  abbrev pub to_local_state : LocalStateFfi → Result (LocalState Uuid) CoreErrorFfi
  to_local_state s = do
    hlc ← transpose to_hlc s.tombstoned_duplicate_hlc
    ok (record {
      applied = s.applied;
      applied_deleted = s.applied_deleted;
      live_duplicate_sync_hash = s.live_duplicate_sync_hash;
      tombstoned_duplicate_hlc = hlc;
    })

-- The type of UUIDs does not show in these signatures, so it is an argument.
module _ (Uuid : Type 0) ⦃u : UuidOps Uuid⦄ where
  unfoldable pub hlc_next : Option HlcFfi → ℤ → Chars → Result HlcFfi CoreErrorFfi
  hlc_next prev now_millis node = do
    node ← parse_uuid {Uuid = Uuid} node
    prev ← transpose (to_hlc {Uuid = Uuid}) prev
    ok (from_hlc (Sync.hlc_next prev now_millis node))

  unfoldable pub hlc_receive : Option HlcFfi → HlcFfi → ℤ → Chars → Result HlcFfi CoreErrorFfi
  hlc_receive loc remote now_millis node = do
    node ← parse_uuid {Uuid = Uuid} node
    loc ← transpose (to_hlc {Uuid = Uuid}) loc
    remote ← to_hlc {Uuid = Uuid} remote
    ok (from_hlc (Sync.hlc_receive loc remote now_millis node))

  unfoldable pub hlc_compare : HlcFfi → HlcFfi → Result ℤ CoreErrorFfi
  hlc_compare a b = do
    a ← to_hlc {Uuid = Uuid} a
    b ← to_hlc {Uuid = Uuid} b
    ok (sign (Sync.hlc_compare a b))

  unfoldable pub merge_decide : LocalStateFfi → Bool → HlcFfi → Result MergeActionFfi CoreErrorFfi
  merge_decide loc remote_deleted remote_hlc = do
    loc ← to_local_state {Uuid = Uuid} loc
    remote_hlc ← to_hlc {Uuid = Uuid} remote_hlc
    ok (from_merge_action (Sync.merge_decide loc remote_deleted remote_hlc))

  unfoldable pub gc_eligible : HlcFfi → List ℤ → ℤ → Result Bool CoreErrorFfi
  gc_eligible tombstone_hlc devices_last_seen_secs now_secs = do
    hlc ← to_hlc {Uuid = Uuid} tombstone_hlc
    ok (Sync.gc_eligible hlc (map presence devices_last_seen_secs) now_secs)

unfoldable pub device_is_stale : ℤ → ℤ → Bool
device_is_stale last_seen_secs now_secs = Sync.device_is_stale last_seen_secs now_secs

unfoldable pub rejoin_action : ℤ → ℤ → RejoinActionFfi
rejoin_action self_last_seen_secs now_secs =
    from_rejoin_action (Sync.rejoin_action self_last_seen_secs now_secs)
