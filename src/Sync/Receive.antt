-- ===== src/Sync/Receive.antt =====
-- hlc_receive: merging a received stamp into the local clock.
use clipy_si_core.Common.{ℕ, ◌+◌, ◌≤◌, ◌≡◌, ◌≢◌, ◌⊎◌, Ordering, Option, none, some, arith, OnSome}
use clipy_si_core.Common.Int.{
  ℤ, pos, pos_part, neg_part, i64_max, i64_min, ◌≤ℤ◌, max_ℤ, max_ℤ_bounds, min_ℤ, min_ℤ_bounds,
  saturating_add, saturating_add_bounds, saturating_add-IsI64, IsI64, eq_of_parts,
}
use clipy_si_core.Extern.Uuid.{UuidOps}
use clipy_si_core.Record.{Hlc, IsStamp}
use clipy_si_core.Sync.{hlc_compare, hlc_next, hlc_receive, u32_max, max_drift_millis}
use clipy_si_core.Sync.Next.{hlc_next-Before}
use clipy_si_core.Sync.Order.{Before, Before-compare}

module _ {Uuid : Type 0} where
  saturated_Before :
      (a r h : Hlc Uuid)
      → IsStamp a
      → (Before a r) ⊎ ((a.wall_millis ≡ r.wall_millis) × (r.counter ≡ u32_max))
      → Before r h
      → Before a h
  saturated_Before a r h s k b = ground arith

  -- Receiving moves the clock past its last stamp, or to that wall with the counter saturated, and
  -- never to a wall before `now`.
  pub hlc_receive_lower :
      (loc remote : Hlc Uuid) (now : ℤ) (node : Uuid)
      → IsStamp loc
      → IsStamp remote
      → let r = hlc_receive (some loc) remote now node in
        ((Before loc r) ⊎ ((loc.wall_millis ≡ r.wall_millis) × (r.counter ≡ u32_max)))
        × (now ≤ℤ r.wall_millis)
  unfolding hlc_receive
  hlc_receive_lower loc remote now node s t =
      let drift = saturating_add now (pos max_drift_millis) in
      let clamped = min_ℤ remote.wall_millis drift in
      ground (
        arith,
        min_ℤ_bounds remote.wall_millis drift,
        max_ℤ_bounds loc.wall_millis clamped,
        max_ℤ_bounds (max_ℤ loc.wall_millis clamped) now,
        eq_of_parts loc.wall_millis (max_ℤ (max_ℤ loc.wall_millis clamped) now),
        eq_of_parts clamped (max_ℤ (max_ℤ loc.wall_millis clamped) now),
        eq_of_parts clamped remote.wall_millis,
      )

  -- It also moves the clock past the received stamp, or to that wall with the counter saturated, if
  -- that stamp's wall is within the drift of `now`.
  pub hlc_receive_remote :
      (loc : Option (Hlc Uuid)) (remote : Hlc Uuid) (now : ℤ) (node : Uuid)
      → OnSome (λ p. IsStamp p) loc
      → IsStamp remote
      → remote.wall_millis ≤ℤ saturating_add now (pos max_drift_millis)
      → let r = hlc_receive loc remote now node in
        (Before remote r) ⊎ ((remote.wall_millis ≡ r.wall_millis) × (r.counter ≡ u32_max))
  unfolding hlc_receive
  hlc_receive_remote none remote now node s t h =
      let drift = saturating_add now (pos max_drift_millis) in
      let clamped = min_ℤ remote.wall_millis drift in
      ground (
        arith,
        min_ℤ_bounds remote.wall_millis drift,
        max_ℤ_bounds i64_min clamped,
        max_ℤ_bounds (max_ℤ i64_min clamped) now,
        eq_of_parts clamped (max_ℤ (max_ℤ i64_min clamped) now),
        eq_of_parts clamped remote.wall_millis,
      )
  hlc_receive_remote (some loc) remote now node s t h =
      let drift = saturating_add now (pos max_drift_millis) in
      let clamped = min_ℤ remote.wall_millis drift in
      ground (
        arith,
        min_ℤ_bounds remote.wall_millis drift,
        max_ℤ_bounds loc.wall_millis clamped,
        max_ℤ_bounds (max_ℤ loc.wall_millis clamped) now,
        eq_of_parts loc.wall_millis (max_ℤ (max_ℤ loc.wall_millis clamped) now),
        eq_of_parts clamped (max_ℤ (max_ℤ loc.wall_millis clamped) now),
        eq_of_parts clamped remote.wall_millis,
      )

  -- For a time in the range of an `i64`: if the local clock, if any, and the present plus the drift
  -- are at most `m`, so is the wall of the stamp that `hlc_receive` returns, whatever the received
  -- stamp says.
  pub hlc_receive_upper :
      (loc : Option (Hlc Uuid)) (remote : Hlc Uuid) (now : ℤ) (node : Uuid) (m : ℕ)
      → OnSome (λ p. p.wall_millis ≤ℤ pos m) loc
      → IsI64 now
      → pos_part now + max_drift_millis ≤ m + neg_part now
      → (hlc_receive loc remote now node).wall_millis ≤ℤ pos m
  unfolding hlc_receive
  hlc_receive_upper none remote now node m s n h =
      let drift = saturating_add now (pos max_drift_millis) in
      let clamped = min_ℤ remote.wall_millis drift in
      ground (
        arith,
        saturating_add_bounds now max_drift_millis,
        min_ℤ_bounds remote.wall_millis drift,
        max_ℤ_bounds i64_min clamped,
        max_ℤ_bounds (max_ℤ i64_min clamped) now,
      )
  hlc_receive_upper (some loc) remote now node m s n h =
      let drift = saturating_add now (pos max_drift_millis) in
      let clamped = min_ℤ remote.wall_millis drift in
      ground (
        arith,
        saturating_add_bounds now max_drift_millis,
        min_ℤ_bounds remote.wall_millis drift,
        max_ℤ_bounds loc.wall_millis clamped,
        max_ℤ_bounds (max_ℤ loc.wall_millis clamped) now,
      )

  pub hlc_receive-IsStamp :
      (loc : Option (Hlc Uuid)) (remote : Hlc Uuid) (now : ℤ) (node : Uuid)
      → OnSome (λ p. IsStamp p) loc
      → IsStamp remote
      → IsI64 now
      → IsStamp (hlc_receive loc remote now node)
  unfolding hlc_receive
  hlc_receive-IsStamp none remote now node s t n =
      let drift = saturating_add now (pos max_drift_millis) in
      let clamped = min_ℤ remote.wall_millis drift in
      ground (
        arith,
        saturating_add-IsI64 now (pos max_drift_millis),
        min_ℤ_bounds remote.wall_millis drift,
        max_ℤ_bounds i64_min clamped,
        max_ℤ_bounds (max_ℤ i64_min clamped) now,
      )
  hlc_receive-IsStamp (some loc) remote now node s t n =
      let drift = saturating_add now (pos max_drift_millis) in
      let clamped = min_ℤ remote.wall_millis drift in
      ground (
        arith,
        saturating_add-IsI64 now (pos max_drift_millis),
        min_ℤ_bounds remote.wall_millis drift,
        max_ℤ_bounds loc.wall_millis clamped,
        max_ℤ_bounds (max_ℤ loc.wall_millis clamped) now,
      )

module _ {Uuid : Type 0} ⦃u : UuidOps Uuid⦄ where
  -- Causality, for times and stamps in the machine ranges: the stamp that a device issues after
  -- receiving one within the drift is later than the received stamp and than its own last one,
  -- unless the clock is then at the last millisecond.
  pub receive_then_next :
      (loc remote : Hlc Uuid) (now now' : ℤ) (node : Uuid)
      → IsStamp loc
      → IsStamp remote
      → IsI64 now
      → IsI64 now'
      → remote.wall_millis ≤ℤ saturating_add now (pos max_drift_millis)
      → (hlc_receive (some loc) remote now node).wall_millis ≢ i64_max
      → let h = hlc_next (some (hlc_receive (some loc) remote now node)) now' node in
        (hlc_compare loc h ≡ Ordering.lt) × (hlc_compare remote h ≡ Ordering.lt)
  receive_then_next loc remote now now' node s t n n' d e =
      let r = hlc_receive (some loc) remote now node in
      let h = hlc_next (some r) now' node in
      let rs = hlc_receive-IsStamp (some loc) remote now node s t n in
      let b = hlc_next-Before r now' node rs n' (λ p. e p.0) in
      (
        Before-compare loc h
            (saturated_Before loc r h s (hlc_receive_lower loc remote now node s t).0 b),
        Before-compare remote h
            (saturated_Before remote r h t (hlc_receive_remote (some loc) remote now node s t d) b),
      )
