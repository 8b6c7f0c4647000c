-- ===== src/Sync/Tests.antt =====
-- The unit tests of crates/clipy-si-core/src/sync/mod.rs, each the conjunction of what it asserts. A
-- UUID is its number, which orders as its sixteen big-endian bytes do.
use clipy_si_core.Common.{
  ℕ, ◌+◌, ◌*◌, ◌≡◌, refl, Ordering, Bool, true, false, not, ◌&&◌, none, some, [], ◌∷◌, ◌==◌,
}
use clipy_si_core.Common.Int.{
  pos, ◌==ℤ◌, leb_ℤ, max_ℤ, min_ℤ, saturating_add, saturating_sub, wrapping_mul,
}
use clipy_si_core.Extern.Uuid.{number_uuid}
use clipy_si_core.Record.{Hlc}
use clipy_si_core.Sync.{
  hlc_compare, hlc_next, hlc_receive, max_drift_millis, u32_max, LocalState, merge_decide,
  MergeAction, apply_remote, apply_tombstone, record_tombstone_only, skip, skip_duplicate_content,
  DevicePresence, gc_eligible, device_is_stale, RejoinAction, delete_locally, repush, rejoin_action,
}

-- The derived `==` of the enumerations, and the one of `Ordering`.
abbrev action_code : MergeAction → ℕ
action_code apply_remote = 0
action_code apply_tombstone = 1
action_code record_tombstone_only = 2
action_code skip = 3
action_code skip_duplicate_content = 4

abbrev same_action : MergeAction → MergeAction → Bool
same_action a b = action_code a == action_code b

abbrev same_rejoin : RejoinAction → RejoinAction → Bool
same_rejoin delete_locally delete_locally = true
same_rejoin repush repush = true
same_rejoin _ _ = false

abbrev order_code : Ordering → ℕ
order_code Ordering.lt = 0
order_code Ordering.eq = 1
order_code Ordering.gt = 2

abbrev same_order : Ordering → Ordering → Bool
same_order a b = order_code a == order_code b

abbrev hlc : ℕ → ℕ → ℕ → Hlc ℕ
hlc wall counter n = record { wall_millis = pos wall; counter = counter; node = n }

-- `LocalState::default()`.
abbrev default_state : LocalState ℕ
default_state = record {
  applied = false;
  applied_deleted = false;
  live_duplicate_sync_hash = false;
  tombstoned_duplicate_hlc = none;
}

abbrev compare_stamps : Hlc ℕ → Hlc ℕ → Ordering
compare_stamps = hlc_compare ⦃u = number_uuid⦄

abbrev decide : LocalState ℕ → Bool → Hlc ℕ → MergeAction
decide = merge_decide ⦃u = number_uuid⦄

hlc_next_is_monotonic_against_backwards_clock : Bool
unfolding hlc_next max_ℤ
hlc_next_is_monotonic_against_backwards_clock =
    let prev = hlc 1_000 3 1 in
    let next = hlc_next (some prev) (pos 500) 1 in
    let fresh = hlc_next (some prev) (pos 2_000) 1 in
    next.wall_millis ==ℤ pos 1_000
    && next.counter == 4
    && fresh.wall_millis ==ℤ pos 2_000
    && fresh.counter == 0

hlc_counter_saturation_rolls_wall : Bool
unfolding hlc_next max_ℤ saturating_add
hlc_counter_saturation_rolls_wall =
    let prev = hlc 1_000 u32_max 1 in
    let next = hlc_next (some prev) (pos 1_000) 1 in
    next.wall_millis ==ℤ pos 1_001 && next.counter == 0

hlc_receive_clamps_skewed_remote_wall : Bool
unfolding hlc_receive hlc_compare max_ℤ min_ℤ saturating_add
hlc_receive_clamps_skewed_remote_wall =
    let local = hlc 1_000 0 1 in
    let skewed = hlc (max_drift_millis * 10) 0 2 in
    let merged = hlc_receive (some local) skewed (pos 1_000) 1 in
    leb_ℤ merged.wall_millis (pos (1_000 + max_drift_millis))
    && same_order (compare_stamps skewed merged) Ordering.gt

hlc_compare_is_total_via_node : Bool
unfolding hlc_compare
hlc_compare_is_total_via_node =
    let a = hlc 5 1 1 in
    let b = hlc 5 1 2 in
    same_order (compare_stamps a b) Ordering.lt && same_order (compare_stamps a a) Ordering.eq

tombstone_always_wins_for_known_record : Bool
unfolding merge_decide
tombstone_always_wins_for_known_record =
    let local = record default_state { applied = true } in
    same_action (decide local true (hlc 1 0 2)) apply_tombstone
    && same_action (decide local false (hlc 9 0 2)) skip

unknown_tombstone_is_recorded_not_skipped : Bool
unfolding merge_decide
unknown_tombstone_is_recorded_not_skipped =
    same_action (decide default_state true (hlc 1 0 2)) record_tombstone_only

duplicate_content_suppresses_insert_unless_recopied_after_wipe : Bool
unfolding merge_decide hlc_compare
duplicate_content_suppresses_insert_unless_recopied_after_wipe =
    let live_dup = record default_state { live_duplicate_sync_hash = true } in
    let wiped = record default_state { tombstoned_duplicate_hlc = some (hlc 100 0 1) } in
    same_action (decide live_dup false (hlc 10 0 2)) skip_duplicate_content
    && same_action (decide wiped false (hlc 50 0 2)) skip_duplicate_content
    && same_action (decide wiped false (hlc 150 0 2)) apply_remote

abbrev day : ℕ
day = 86_400

abbrev seen_at : ℕ → DevicePresence
seen_at s = record { last_seen_secs = pos s }

gc_blocks_on_fresh_unacked_device_and_respects_units : Bool
unfolding gc_eligible device_is_stale saturating_sub wrapping_mul
gc_blocks_on_fresh_unacked_device_and_respects_units =
    let tomb = hlc (day * 1000) 0 1 in
    let now = pos (40 * day) in
    let acked = seen_at (39 * day) in
    let fresh_unacked = seen_at (12 * day) in
    let blocking = seen_at (12 * day) in
    let late_tomb = hlc (20 * day * 1000) 0 1 in
    let now2 = pos (56 * day) in
    let now3 = pos (41 * day) in
    gc_eligible tomb (acked ∷ fresh_unacked ∷ []) now
    && gc_eligible late_tomb (blocking ∷ []) now2
    && not (gc_eligible late_tomb (blocking ∷ []) now3)

gc_respects_retention_age : Bool
unfolding gc_eligible device_is_stale saturating_sub wrapping_mul
gc_respects_retention_age =
    let tomb = hlc (day * 1000) 0 1 in
    not (gc_eligible tomb [] (pos (30 * day))) && gc_eligible tomb [] (pos (37 * day))

rejoin_stale_deletes_fresh_repushes : Bool
unfolding rejoin_action device_is_stale saturating_sub
rejoin_stale_deletes_fresh_repushes =
    same_rejoin (rejoin_action (pos 0) (pos (31 * day))) delete_locally
    && same_rejoin (rejoin_action (pos (10 * day)) (pos (31 * day))) repush

-- The tests of the clock.
abbrev clock_tests : Bool
unfolding hlc_next_is_monotonic_against_backwards_clock hlc_counter_saturation_rolls_wall
    hlc_receive_clamps_skewed_remote_wall hlc_compare_is_total_via_node
clock_tests =
    hlc_next_is_monotonic_against_backwards_clock && hlc_counter_saturation_rolls_wall
    && hlc_receive_clamps_skewed_remote_wall && hlc_compare_is_total_via_node

-- The tests of merging and of garbage collection.
abbrev folder_tests : Bool
unfolding tombstone_always_wins_for_known_record unknown_tombstone_is_recorded_not_skipped
    duplicate_content_suppresses_insert_unless_recopied_after_wipe
    gc_blocks_on_fresh_unacked_device_and_respects_units gc_respects_retention_age
    rejoin_stale_deletes_fresh_repushes
folder_tests =
    tombstone_always_wins_for_known_record && unknown_tombstone_is_recorded_not_skipped
    && duplicate_content_suppresses_insert_unless_recopied_after_wipe
    && gc_blocks_on_fresh_unacked_device_and_respects_units && gc_respects_retention_age
    && rejoin_stale_deletes_fresh_repushes

clock_tests_pass : clock_tests ≡ true
unfolding clock_tests
clock_tests_pass = refl

folder_tests_pass : folder_tests ≡ true
unfolding folder_tests
folder_tests_pass = refl
