-- ===== src/Sync/Order.antt =====
-- hlc_compare as a linear order on stamps.
use clipy_si_core.Common.{◌<◌, ◌≡◌, ◌⊎◌, ◌↔◌, Ordering, arith}
use clipy_si_core.Common.Int.{◌<ℤ◌, eq_of_parts, cmp_ℤ-IsPreorder}
use clipy_si_core.Common.Linear.{
  IsPreorder, then-IsPreorder, key-IsPreorder, compare-IsPreorder, cmp_bytes-IsPreorder,
  eq_of_cmp_bytes, IsLinear, Precedes, cmp_bytes_iff,
}
use clipy_si_core.Extern.Uuid.{UuidOps}
use clipy_si_core.Record.{Hlc}
use clipy_si_core.Sync.{hlc_compare}

module _ {Uuid : Type 0} ⦃u : UuidOps Uuid⦄ where
  pub hlc_compare-IsPreorder : IsPreorder (hlc_compare {Uuid = Uuid})
  unfolding hlc_compare
  hlc_compare-IsPreorder =
      then-IsPreorder
        (then-IsPreorder (key-IsPreorder (λ h. h.wall_millis) cmp_ℤ-IsPreorder)
          (key-IsPreorder (λ h. h.counter) compare-IsPreorder))
        (key-IsPreorder (λ h. u.as_bytes h.node) cmp_bytes-IsPreorder)

  -- Only equal stamps compare as equal.
  pub eq_of_hlc_compare : (a b : Hlc Uuid) → hlc_compare a b ≡ Ordering.eq → a ≡ b
  unfolding hlc_compare
  eq_of_hlc_compare a b h = ground (
    arith,
    eq_of_parts a.wall_millis b.wall_millis,
    u.as_bytes_injective a.node b.node,
    eq_of_cmp_bytes (u.as_bytes a.node) (u.as_bytes b.node),
  )

-- The order of the clock alone: walls, then counters.
abbrev pub Before : {Uuid : Type 0} → Hlc Uuid → Hlc Uuid → Type 0
Before a b =
    (a.wall_millis <ℤ b.wall_millis) ⊎ ((a.wall_millis ≡ b.wall_millis) × (a.counter < b.counter))

module _ {Uuid : Type 0} ⦃u : UuidOps Uuid⦄ where
  pub Before-compare : (a b : Hlc Uuid) → Before a b → hlc_compare a b ≡ Ordering.lt
  unfolding hlc_compare
  Before-compare a b h = ground arith

  -- The documented order: the earlier wall, at one wall the smaller counter, and at one wall and
  -- counter the node whose bytes come first.
  abbrev pub IsEarlier : Hlc Uuid → Hlc Uuid → Type 0
  IsEarlier a b =
      Before a b
      ⊎ ((a.wall_millis ≡ b.wall_millis)
          × (a.counter ≡ b.counter)
          × Precedes (u.as_bytes a.node) (u.as_bytes b.node))

  hlc_compare_iff : (a b : Hlc Uuid) → (hlc_compare a b ≡ Ordering.lt) ↔ IsEarlier a b
  unfolding hlc_compare
  hlc_compare_iff a b = ground (
    arith,
    eq_of_parts a.wall_millis b.wall_millis,
    cmp_bytes_iff (u.as_bytes a.node) (u.as_bytes b.node),
  )

  -- `hlc_compare` is a linear order of stamps: a stamp equals itself and no other, swapping the
  -- arguments reverses the result, earlier is transitive, and equal stamps compare alike. A stamp
  -- is less than another exactly if its wall is earlier, or the walls are the same and its counter
  -- is smaller, or walls and counters are the same and the bytes of its node come first, byte by
  -- byte.
  pub hlc_compare-IsLinear :
      IsLinear (hlc_compare {Uuid = Uuid})
      × ((a b : Hlc Uuid) → (hlc_compare a b ≡ Ordering.lt) ↔ IsEarlier a b)
  hlc_compare-IsLinear =
      (record { preorder = hlc_compare-IsPreorder; antisym = eq_of_hlc_compare }, hlc_compare_iff)
