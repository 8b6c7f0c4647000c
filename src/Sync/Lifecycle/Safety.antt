-- ===== src/Sync/Lifecycle/Safety.antt =====
-- A deleted record never comes back.
use clipy_si_core.Common.{
  ℕ, ◌+◌, ◌*◌, ◌-◌, ◌≤◌, ◌≡◌, refl, Bool, true, false, Option, none, some, arith,
}
use clipy_si_core.Common.Int.{pos, IsI64}
use clipy_si_core.Extern.Uuid.{UuidOps}
use clipy_si_core.Record.{Hlc}
use clipy_si_core.Sync.{tombstone_retention_secs, stale_device_secs}
use clipy_si_core.Sync.Gc.{rejoin_fresh}
use clipy_si_core.Sync.Merge.{Shell, deliver_lem}
use package.clipy_si_core.Sync.Lifecycle.{
  Replica, World, Lookups, is_live, first_time, session, pull, Reads, Reach, publish, tick, lose,
  delete, sync, collect,
}
use package.clipy_si_core.Sync.Lifecycle.Invariant.{Wiped}
use package.clipy_si_core.Sync.Lifecycle.Steps.{put_self, session-dead, Reach-IsSettled}

module _ {Uuid : Type 0} (same : Discrete Uuid) ⦃u : UuidOps Uuid⦄ (s : Shell)
    (header : Hlc Uuid) where
  Reach-Wiped :
      {skew w : ℕ} {v : World Uuid}
      → 4 * skew ≤ tombstone_retention_secs - stale_device_secs
      → Reach same s header skew v
      → v.wiped ≡ some w
      → Wiped skew v w
  Reach-Wiped {skew} slack r e = ground (arith, (Reach-IsSettled same skew s header slack r).erased)

  -- No resurrection. For a shell that marks as the actions say, a folder that keeps a tombstone
  -- until it is collected, times whose milliseconds fit an `i64`, and devices that read the time
  -- within `skew` seconds, where four times the skew is at most the retention less the stale
  -- window: once a device has deleted the record, the folder has no file of it again, whatever the
  -- devices pull, delete and collect and the provider loses of the record files.
  pub deleted_stays_gone :
      {skew w : ℕ} {v : World Uuid}
      → 4 * skew ≤ tombstone_retention_secs - stale_device_secs
      → Reach same s header skew v
      → v.wiped ≡ some w
      → v.file ≡ false
  deleted_stays_gone slack r e = (Reach-Wiped slack r e).1

  -- Convergence. For a shell that marks as the actions say, a folder that keeps a tombstone until
  -- it is collected, times whose milliseconds fit an `i64`, and devices that read the time within
  -- `skew` seconds, where four times the skew is at most the retention less the stale window: a
  -- session of any device after a deletion of the record leaves it deleted or unknown on that
  -- device, also where the tombstone was collected while the device was away.
  pub pull-deletes :
      {skew w : ℕ} {v : World Uuid} (d : Uuid) (c : ℕ) (l k : Lookups Uuid)
      → 4 * skew ≤ tombstone_retention_secs - stale_device_secs
      → Reach same s header skew v
      → v.wiped ≡ some w
      → Reads skew v.now c
      → is_live ((pull same s header v d c l k).replicas d).marks ≡ false
  pull-deletes {skew} {w} {v} d c l k slack r e rd =
      let i = Reach-IsSettled same skew s header slack r in
      let dead =
        session-dead same skew s header slack v d c l k w rd (i.coherent d)
          (Reach-Wiped slack r e) in
      put_self same skew (λ q. is_live q.marks ≡ false) v.replicas d _ dead.1

  first_time-some : (n : ℕ) (o : Option ℕ) → ¬ (first_time n o ≡ none)
  first_time-some n none e = cc
  first_time-some n (some w) e = cc

  -- While nobody has deleted the record, there is no tombstone.
  Reach-untouched :
      {skew : ℕ} {v : World Uuid} → Reach same s header skew v → v.wiped ≡ none → v.tomb ≡ none
  Reach-untouched (publish d b) e = refl
  Reach-untouched (tick k r) e = Reach-untouched r e
  Reach-untouched (lose r) e = Reach-untouched r e
  Reach-untouched (delete {w} d clock c r rd p live) e = absurd (first_time-some w.now w.wiped e)
  Reach-untouched (sync d c l k r rd) e = Reach-untouched r e
  Reach-untouched (collect t devices c r rd f g) e = refl

  -- A session of a device that still has the record, without a tombstone and in time.
  session-keeps :
      (file : Bool) (r : Replica) (c : ℕ) (l k : Lookups Uuid)
      → IsI64 (pos c)
      → IsI64 (pos r.last_seen)
      → is_live r.marks ≡ true
      → c ≤ r.last_seen + stale_device_secs
      → (session s header file none r c l k).0 ≡ true
        × is_live (session s header file none r c l k).1 ≡ true
  session-keeps true r c l k n m live fresh = ground (
    arith,
    deliver_lem s r.marks
        (record { deleted = false; hlc = header; live_duplicate = k.0; tombstoned_duplicate = k.1 })
        (λ e. ground arith),
  )
  session-keeps false r c l k n m live fresh =
      ground (arith, rejoin_fresh (pos r.last_seen) (pos c) m n)

  -- Nothing is lost to the provider. As long as no device has deleted the record, for a shell that
  -- marks as the actions say, and seconds that fit an `i64`: after a session of a device that has
  -- the record and was seen at most 30 days before, the folder has the file, also where the
  -- provider had lost it, and the device still has the record.
  pub pull-restores :
      {skew : ℕ} {v : World Uuid} (d : Uuid) (c : ℕ) (l k : Lookups Uuid)
      → Reach same s header skew v
      → v.wiped ≡ none
      → IsI64 (pos c)
      → IsI64 (pos (v.replicas d).last_seen)
      → is_live (v.replicas d).marks ≡ true
      → c ≤ (v.replicas d).last_seen + stale_device_secs
      → ((pull same s header v d c l k).file ≡ true)
        × (is_live ((pull same s header v d c l k).replicas d).marks ≡ true)
  pull-restores {skew} {v} d c l k r e n m live fresh =
      let kept : (session s header v.file v.tomb (v.replicas d) c l k).0 ≡ true
          × is_live (session s header v.file v.tomb (v.replicas d) c l k).1 ≡ true =
        rw (Reach-untouched r e) (session-keeps v.file (v.replicas d) c l k n m live fresh) in
      (kept.0, put_self same skew (λ q. is_live q.marks ≡ true) v.replicas d _ kept.1)
