-- ===== src/Sync/History.antt =====
-- A device's clock over a history of issued and received stamps: the new clock is the stamp that
-- hlc_next or hlc_receive returned.
use clipy_si_core.Common.{
  ℕ, ◌+◌, ◌≤◌, ◌<◌, ◌≡◌, ◌⊎◌, Ordering, Option, none, some, List, [], ◌∷◌, arith, length, All,
  OnSome,
}
use clipy_si_core.Common.Int.{ℤ, pos, i64_max, ◌≤ℤ◌, ◌<ℤ◌, IsI64}
use clipy_si_core.Extern.Uuid.{UuidOps}
use clipy_si_core.Record.{Hlc, IsStamp}
use clipy_si_core.Sync.{hlc_compare, hlc_next, hlc_receive, u32_max, max_drift_millis}
use clipy_si_core.Sync.Order.{Before, Before-compare}
use clipy_si_core.Sync.Next.{hlc_next-Before, hlc_next-IsStamp, hlc_next_upper}
use clipy_si_core.Sync.Receive.{hlc_receive_lower, hlc_receive-IsStamp, hlc_receive_upper}

pub data Event (Uuid : Type 0) : Type 0 where
  issue : ℤ → Event Uuid
  receive : Hlc Uuid → ℤ → Event Uuid

module _ {Uuid : Type 0} where
  -- The stamps that a device with this node issues over a history, from a clock.
  unfoldable pub issued : Uuid → Option (Hlc Uuid) → List (Event Uuid) → List (Hlc Uuid)
  issued node clock [] = []
  issued node clock (issue now ∷ es) =
      let h = hlc_next clock now node in h ∷ issued node (some h) es
  issued node clock (receive remote now ∷ es) =
      issued node (some (hlc_receive clock remote now node)) es

  -- Machine ranges, and local times that stay below `b`.
  abbrev pub IsTimely : ℕ → Event Uuid → Type 0
  IsTimely b (issue now) = IsI64 now × (now ≤ℤ pos b)
  IsTimely b (receive remote now) = IsI64 now × (now ≤ℤ pos b) × IsStamp remote

  -- No later than, by wall and counter.
  abbrev pub AtMost : Hlc Uuid → Hlc Uuid → Type 0
  AtMost a b =
      (a.wall_millis <ℤ b.wall_millis) ⊎ ((a.wall_millis ≡ b.wall_millis) × (a.counter ≤ b.counter))

  -- The clock has reached the last stamp issued.
  abbrev pub Covers : Option (Hlc Uuid) → Option (Hlc Uuid) → Type 0
  Covers none c = Unit {0}
  Covers (some b) none = ⊥
  Covers (some b) (some c) = AtMost b c

  abbrev pub IsWithin : ℕ → Hlc Uuid → Type 0
  IsWithin m c = IsStamp c × (c.wall_millis ≤ℤ pos m)

  -- A clock within the bound is not at the last stamp of all.
  pub not_last :
      (m : ℕ) (c : Hlc Uuid)
      → IsWithin m c
      → m < 0x7fff_ffff_ffff_ffff
      → ¬ ((c.wall_millis ≡ i64_max) × (c.counter ≡ u32_max))
  not_last m c w h e = ground arith

  pub AtMost-Before : (a b c : Hlc Uuid) → AtMost a b → Before b c → Before a c
  AtMost-Before a b c h k = ground arith

  pub receive-AtMost :
      (a b c : Hlc Uuid)
      → AtMost a b
      → IsStamp b
      → (Before b c) ⊎ ((b.wall_millis ≡ c.wall_millis) × (c.counter ≡ u32_max))
      → AtMost a c
  receive-AtMost a b c h s k = ground arith

  pub issue_step :
      (node : Uuid) (base clock : Option (Hlc Uuid)) (now : ℤ) (m : ℕ)
      → Covers base clock
      → OnSome (IsWithin m) clock
      → IsI64 now
      → now ≤ℤ pos m
      → m < 0x7fff_ffff_ffff_ffff
      → let h = hlc_next clock now node in OnSome (λ p. Before p h) base × IsWithin (m + 1) h
  issue_step node none none now m c w t n h =
      (tt, ground (arith, hlc_next-IsStamp none now node, hlc_next_upper none now node m))
  issue_step node none (some k) now m c w t n h =
      (tt, ground (arith, hlc_next-IsStamp (some k) now node, hlc_next_upper (some k) now node m))
  issue_step node (some p) none now m c w t n h = absurd c
  issue_step node (some p) (some k) now m c w t n h = (
    AtMost-Before p k (hlc_next (some k) now node) c
        (hlc_next-Before k now node w.0 t (not_last m k w h)),
    ground (arith, hlc_next-IsStamp (some k) now node, hlc_next_upper (some k) now node m),
  )

  pub receive_step :
      (node : Uuid) (base clock : Option (Hlc Uuid)) (remote : Hlc Uuid) (now : ℤ) (b m : ℕ)
      → Covers base clock
      → OnSome (IsWithin m) clock
      → IsTimely b (receive remote now)
      → b + max_drift_millis ≤ m
      → let r = hlc_receive clock remote now node in Covers base (some r) × IsWithin m r
  receive_step node none none remote now b m c w t h = (
    tt,
    ground
        (arith, hlc_receive-IsStamp none remote now node, hlc_receive_upper none remote now node m),
  )
  receive_step node none (some k) remote now b m c w t h = (
    tt,
    ground (
      arith,
      hlc_receive-IsStamp (some k) remote now node,
      hlc_receive_upper (some k) remote now node m,
    ),
  )
  receive_step node (some p) none remote now b m c w t h = absurd c
  receive_step node (some p) (some k) remote now b m c w t h = (
    receive-AtMost p k (hlc_receive (some k) remote now node) c w.0
        (hlc_receive_lower k remote now node w.0 t.2).0,
    ground (
      arith,
      hlc_receive-IsStamp (some k) remote now node,
      hlc_receive_upper (some k) remote now node m,
    ),
  )

  pub AtMost-refl : (h : Hlc Uuid) → AtMost h h
  AtMost-refl h = ground arith

module _ {Uuid : Type 0} ⦃u : UuidOps Uuid⦄ where
  -- Each stamp is later than the one before it.
  abbrev pub Ascending : Option (Hlc Uuid) → List (Hlc Uuid) → Type 0
  Ascending b [] = Unit {0}
  Ascending none (h ∷ hs) = Ascending (some h) hs
  Ascending (some b) (h ∷ hs) = (hlc_compare b h ≡ Ordering.lt) × Ascending (some h) hs

  Ascending-cons :
      (base : Option (Hlc Uuid)) (h : Hlc Uuid) (hs : List (Hlc Uuid))
      → OnSome (λ p. Before p h) base
      → Ascending (some h) hs
      → Ascending base (h ∷ hs)
  Ascending-cons none h hs k a = a
  Ascending-cons (some p) h hs k a = (Before-compare p h k, a)

  issued-Ascending_from :
      (node : Uuid) (base clock : Option (Hlc Uuid)) (es : List (Event Uuid)) (b m : ℕ)
      → Covers base clock
      → OnSome (IsWithin m) clock
      → All (IsTimely b) es
      → b + max_drift_millis ≤ m
      → m + length es < 0x7fff_ffff_ffff_ffff
      → Ascending base (issued node clock es)
  unfolding issued
  issued-Ascending_from node base clock [] b m c w t h l = tt
  issued-Ascending_from node base clock (issue now ∷ es) b m c w t h l =
      let s = issue_step node base clock now m c w t.0.0 (omega arith) (omega arith) in
      let k = hlc_next clock now node in
      Ascending-cons base k (issued node (some k) es) s.0 (
        issued-Ascending_from node (some k) (some k) es b (m + 1) (AtMost-refl k) s.1 t.1
          (omega arith) (omega arith))
  issued-Ascending_from node base clock (receive remote now ∷ es) b m c w t h l =
      let s = receive_step node base clock remote now b m c w t.0 h in
      let r = hlc_receive clock remote now node in
      issued-Ascending_from node base (some r) es b m s.0 s.1 t.1 h (omega arith)

  -- Whatever stamps in the machine ranges a device receives, and however its wall clock jumps, the
  -- stamps that it issues ascend strictly, as long as its local times stay at most `b`, with `b`,
  -- the drift and the number of events together below the last millisecond.
  pub issued-Ascending :
      (node : Uuid) (es : List (Event Uuid)) (b : ℕ)
      → All (IsTimely b) es
      → b + max_drift_millis + length es < 0x7fff_ffff_ffff_ffff
      → Ascending none (issued node none es)
  issued-Ascending node es b t l =
      issued-Ascending_from node none none es b (b + max_drift_millis) tt tt t (omega arith) l
