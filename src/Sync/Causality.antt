-- ===== src/Sync/Causality.antt =====
-- The clocks of several devices: which stamps can have influenced a clock, by issuing and by
-- messages from device to device.
use clipy_si_core.Common.{ℕ, ◌+◌, ◌≤◌, ◌<◌, ◌≡◌, Ordering, Option, none, some, arith, OnSome}
use clipy_si_core.Common.Int.{ℤ, pos, ◌≤ℤ◌, saturating_add, IsI64}
use clipy_si_core.Extern.Uuid.{UuidOps}
use clipy_si_core.Record.{Hlc, IsStamp}
use clipy_si_core.Sync.{hlc_compare, hlc_next, hlc_receive, max_drift_millis}
use clipy_si_core.Sync.History.{
  AtMost, AtMost-Before, receive-AtMost, AtMost-refl, IsWithin, IsTimely, receive, issue_step,
  receive_step, not_last,
}
use clipy_si_core.Sync.Next.{hlc_next-Before}
use clipy_si_core.Sync.Order.{Before-compare}
use clipy_si_core.Sync.Receive.{hlc_receive_remote}

module _ {Uuid : Type 0} where
  -- The stamp `a` leads to the clock `c` of some device, with local times up to `b`. The walls of
  -- the clocks on the way are at most `b`, the drift and `k`, which each issued stamp raises.
  pub data Leads (b : ℕ) (a : Hlc Uuid) : ℕ → Hlc Uuid → Type 0 where
    -- The device that issued `a` has it as its clock.
    start : IsWithin (b + max_drift_millis) a → Leads b a 0 a
    -- The device issues another stamp.
    issues :
        {k : ℕ} {c : Hlc Uuid} (now : ℤ) (node : Uuid)
        → Leads b a k c
        → IsI64 now
        → now ≤ℤ pos b
        → Leads b a (k + 1) (hlc_next (some c) now node)
    -- The device hears a stamp from elsewhere, however far off.
    hears :
        {k : ℕ} {c : Hlc Uuid} (remote : Hlc Uuid) (now : ℤ) (node : Uuid)
        → Leads b a k c
        → IsTimely b (receive remote now)
        → Leads b a k (hlc_receive (some c) remote now node)
    -- Another device hears this one within the drift: with a clock of its own, that may have been
    -- raised more, or for the first time.
    reaches :
        {k m : ℕ} {c : Hlc Uuid} (loc : Option (Hlc Uuid)) (now : ℤ) (node : Uuid)
        → Leads b a k c
        → k ≤ m
        → OnSome (IsWithin (b + max_drift_millis + m)) loc
        → IsI64 now
        → now ≤ℤ pos b
        → c.wall_millis ≤ℤ saturating_add now (pos max_drift_millis)
        → Leads b a m (hlc_receive loc c now node)

  IsWithin-IsStamp :
      (n : ℕ) (loc : Option (Hlc Uuid)) → OnSome (IsWithin n) loc → OnSome (λ p. IsStamp p) loc
  IsWithin-IsStamp n none w = tt
  IsWithin-IsStamp n (some p) w = w.0

  Leads-AtMost :
      {b : ℕ} {a : Hlc Uuid} {k : ℕ} {c : Hlc Uuid}
      → Leads b a k c
      → b + max_drift_millis + k < 0x7fff_ffff_ffff_ffff
      → AtMost a c × IsWithin (b + max_drift_millis + k) c
  Leads-AtMost {b} {a} (start w) h = (AtMost-refl a, ground (arith, w))
  Leads-AtMost {b} {a} (issues {k} {c} now node l n t) h =
      let (m, w) = Leads-AtMost l (omega arith) in
      let (p, v) =
        issue_step node (some c) (some c) now (b + max_drift_millis + k) (AtMost-refl c) w n
          (omega arith) (omega arith) in
      (ground (arith, AtMost-Before a c (hlc_next (some c) now node) m p), ground (arith, v))
  Leads-AtMost {b} {a} (hears {k} {c} remote now node l t) h =
      let (m, w) = Leads-AtMost l h in
      receive_step node (some a) (some c) remote now b (b + max_drift_millis + k) m w t
        (omega arith)
  Leads-AtMost {b} {a} {k} (reaches {c = c} loc now node l le s n t d) h =
      let (m, w) = Leads-AtMost l (omega arith) in
      (
        receive-AtMost a c (hlc_receive loc c now node) m w.0 (
            hlc_receive_remote loc c now node (IsWithin-IsStamp (b + max_drift_millis + k) loc s)
              w.0 d),
        (receive_step node none loc c now b (b + max_drift_millis + k) tt s (n, t, w.0)
            (omega arith)).1,
      )

module _ {Uuid : Type 0} ⦃u : UuidOps Uuid⦄ where
  -- Stamps and times are in the machine ranges. Take a stamp whose wall is at most `b` and the
  -- drift, and any chain of devices, each with a clock or hearing its first stamp, that issue
  -- stamps, hear arbitrary stamps and pass their clock on to a device that hears it within the
  -- drift, at local times up to `b`, and with the other clocks at most `b`, the drift and `k`, for
  -- `k` at least the number of stamps issued on the way. If these three together are below the last
  -- millisecond, every stamp that the device at the end then issues, at any time, is later than
  -- that stamp.
  pub hlc_next-Leads :
      {b k : ℕ} {a c : Hlc Uuid} (now : ℤ) (node : Uuid)
      → Leads b a k c
      → b + max_drift_millis + k < 0x7fff_ffff_ffff_ffff
      → IsI64 now
      → hlc_compare a (hlc_next (some c) now node) ≡ Ordering.lt
  hlc_next-Leads {b} {k} {a} {c} now node l h n =
      let (m, w) = Leads-AtMost l h in
      Before-compare a (hlc_next (some c) now node) (
        AtMost-Before a c (hlc_next (some c) now node) m
          (hlc_next-Before c now node w.0 n (not_last (b + max_drift_millis + k) c w h)))
