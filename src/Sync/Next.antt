-- ===== src/Sync/Next.antt =====
-- hlc_next: the stamps that a device issues.
use clipy_si_core.Common.{ℕ, ◌+◌, ◌≡◌, ◌↔◌, Ordering, Option, none, some, arith, OnSome}
use clipy_si_core.Common.Int.{
  ℤ, pos, i64_max, ◌≤ℤ◌, max_ℤ, max_ℤ_bounds, saturating_add_bounds, saturating_add-IsI64, IsI64,
}
use clipy_si_core.Common.Linear.{IsPreorder}
use clipy_si_core.Extern.Uuid.{UuidOps}
use clipy_si_core.Record.{Hlc, IsStamp}
use clipy_si_core.Sync.{hlc_compare, hlc_next, u32_max}
use clipy_si_core.Sync.Order.{Before, Before-compare, hlc_compare-IsPreorder}

module _ {Uuid : Type 0} where
  pub hlc_next-Before :
      (prev : Hlc Uuid) (now : ℤ) (node : Uuid)
      → IsStamp prev
      → IsI64 now
      → ¬ ((prev.wall_millis ≡ i64_max) × (prev.counter ≡ u32_max))
      → Before prev (hlc_next (some prev) now node)
  unfolding hlc_next
  hlc_next-Before prev now node s n h = ground (
    arith,
    max_ℤ_bounds prev.wall_millis now,
    saturating_add_bounds (max_ℤ prev.wall_millis now) 1,
  )

  -- At the last stamp of all there is no later one, and the clock falls back.
  hlc_next_corner :
      (prev : Hlc Uuid) (now : ℤ) (node : Uuid)
      → IsI64 now
      → prev.wall_millis ≡ i64_max
      → prev.counter ≡ u32_max
      → Before (hlc_next (some prev) now node) prev
  unfolding hlc_next
  hlc_next_corner prev now node n h k = ground (
    arith,
    max_ℤ_bounds prev.wall_millis now,
    saturating_add-IsI64 (max_ℤ prev.wall_millis now) (pos 1),
    saturating_add_bounds (max_ℤ prev.wall_millis now) 1,
  )

  pub hlc_next-IsStamp :
      (prev : Option (Hlc Uuid)) (now : ℤ) (node : Uuid)
      → OnSome (λ p. IsStamp p) prev
      → IsI64 now
      → IsStamp (hlc_next prev now node) × (now ≤ℤ (hlc_next prev now node).wall_millis)
  unfolding hlc_next
  hlc_next-IsStamp none now node s n = ground arith
  hlc_next-IsStamp (some prev) now node s n = ground (
    arith,
    max_ℤ_bounds prev.wall_millis now,
    saturating_add_bounds (max_ℤ prev.wall_millis now) 1,
    saturating_add-IsI64 (max_ℤ prev.wall_millis now) (pos 1),
  )

  pub hlc_next_upper :
      (prev : Option (Hlc Uuid)) (now : ℤ) (node : Uuid) (m : ℕ)
      → OnSome (λ p. IsStamp p × (p.wall_millis ≤ℤ pos m)) prev
      → IsI64 now
      → now ≤ℤ pos m
      → (hlc_next prev now node).wall_millis ≤ℤ pos (m + 1)
  unfolding hlc_next
  hlc_next_upper none now node m s n h = omega arith
  hlc_next_upper (some prev) now node m s n h = ground (
    arith,
    max_ℤ_bounds prev.wall_millis now,
    saturating_add_bounds (max_ℤ prev.wall_millis now) 1,
  )

module _ {Uuid : Type 0} ⦃u : UuidOps Uuid⦄ where
  -- For times and stamps in the machine ranges, the stamp that is issued after another one is later
  -- exactly if that one is not (`i64_max`, `u32_max`).
  pub hlc_next_advances_iff :
      (prev : Hlc Uuid) (now : ℤ) (node : Uuid)
      → IsStamp prev
      → IsI64 now
      → (hlc_compare prev (hlc_next (some prev) now node) ≡ Ordering.lt)
        ↔ (¬ ((prev.wall_millis ≡ i64_max) × (prev.counter ≡ u32_max)))
  hlc_next_advances_iff prev now node s n = (
    (λ e h. cc (
      e,
      IsPreorder.flip hlc_compare-IsPreorder (hlc_next (some prev) now node) prev,
      Before-compare (hlc_next (some prev) now node) prev (hlc_next_corner prev now node n h.0 h.1),
    )),
    (λ h. Before-compare _ _ (hlc_next-Before prev now node s n h)),
  )
