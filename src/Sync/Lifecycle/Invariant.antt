-- ===== src/Sync/Lifecycle/Invariant.antt =====
-- What holds of the folder between two steps.
use clipy_si_core.Common.{
  ℕ, ◌+◌, ◌*◌, ◌≤◌, ◌<◌, ◌≡◌, Bool, true, false, Option, none, some, List, arith, OnSome,
}
use clipy_si_core.Common.Int.{pos, pos_part, neg_part}
use clipy_si_core.Extern.Uuid.{UuidOps}
use clipy_si_core.Record.{Hlc, IsStamp}
use clipy_si_core.Sync.{hlc_next, gc_eligible, DevicePresence}
use clipy_si_core.Sync.Next.{hlc_next-IsStamp}
use clipy_si_core.Sync.Gc.{gc_eligible-IsPast, rejoin_away}
use clipy_si_core.Sync.Merge.{Marks, Shell, IsCoherent, deliver_lem}
use package.clipy_si_core.Sync.Lifecycle.{
  Replica, World, Lookups, is_live, read_tomb, read_file, session, Reads,
}

module _ {Uuid : Type 0} (skew : ℕ) where
  -- A tombstone is dated no earlier than the first deletion, up to the skew.
  abbrev pub IsLater : ℕ → Hlc Uuid → Type 0
  IsLater w t =
      IsStamp t × (1000 * w + neg_part t.wall_millis ≤ pos_part t.wall_millis + 1000 * skew)

  -- A device that still has the record was last seen before the first deletion, up to the skew,
  -- and the tombstone waits for it, or the retention has passed.
  abbrev pub Waits : ℕ → Option (Hlc Uuid) → ℕ → Replica → Type 0
  Waits now tomb w r =
      is_live r.marks ≡ true
      → (r.last_seen ≤ w + skew) × (tomb ≡ none → w + 3_024_000 < now + 2 * skew)

  abbrev pub Wiped : World Uuid → ℕ → Type 0
  Wiped v w =
      (w ≤ v.now)
      × (v.file ≡ false)
      × OnSome (IsLater w) v.tomb
      × ((n : Uuid) → Waits v.now v.tomb w (v.replicas n))

  pub record IsSettled (v : World Uuid) : Type 0 where
    pub coherent : (n : Uuid) → IsCoherent (v.replicas n).marks
    pub seen : (n : Uuid) → (v.replicas n).last_seen ≤ v.now + skew
    pub erased : OnSome (Wiped v) v.wiped

module _ {Uuid : Type 0} (skew : ℕ) where
  Waits-tick :
      (now k w : ℕ) (tomb : Option (Hlc Uuid)) (r : Replica)
      → Waits skew now tomb w r
      → Waits skew (now + k) tomb w r
  Waits-tick now k w tomb r h live = let (seen, past) = h live in (seen, λ e. omega (arith, past e))

  pub Wiped-tick :
      (v : World Uuid) (k w : ℕ) → Wiped skew v w → Wiped skew (record v { now = v.now + k }) w
  Wiped-tick v k w (le, gone, dated, wait) =
      (omega arith, gone, dated, λ n. Waits-tick v.now k w v.tomb (v.replicas n) (wait n))

  -- A new tombstone is dated by its device's reading, or later.
  pub hlc_next-IsLater :
      (clock : Option (Hlc Uuid)) (d : Uuid) (now c w : ℕ)
      → OnSome (λ p. IsStamp p) clock
      → Reads skew now c
      → w ≤ now
      → IsLater skew w (hlc_next clock (pos (1000 * c)) d)
  hlc_next-IsLater clock d now c w p rd le =
      let (stamp, up) = hlc_next-IsStamp clock (pos (1000 * c)) d p rd.2 in (stamp, omega arith)

  -- A tombstone that may be collected is past the retention.
  pub collected_late :
      (t : Hlc Uuid) (devices : List DevicePresence) (now c w : ℕ)
      → Reads skew now c
      → IsLater skew w t
      → gc_eligible t devices (pos c) ≡ true
      → w + 3_024_000 < now + 2 * skew
  collected_late t devices now c w rd later e =
      omega (arith, gc_eligible-IsPast t devices (pos c) rd.2 e)

module _ {Uuid : Type 0} ⦃u : UuidOps Uuid⦄ (s : Shell) (header : Hlc Uuid) (skew : ℕ) where
  read_tomb-IsCoherent :
      (tomb : Option (Hlc Uuid)) (l : Lookups Uuid) (m : Marks)
      → IsCoherent m
      → IsCoherent (read_tomb s header tomb l m)
  read_tomb-IsCoherent none l m h = h
  read_tomb-IsCoherent (some t) l m h = ground (
    arith,
    deliver_lem s m
        (record { deleted = true; hlc = t; live_duplicate = l.0; tombstoned_duplicate = l.1 }) h,
  )

  read_file-IsCoherent :
      (file : Bool) (l : Lookups Uuid) (m : Marks)
      → IsCoherent m
      → IsCoherent (read_file s header file l m)
  read_file-IsCoherent false l m h = h
  read_file-IsCoherent true l m h = ground (
    arith,
    deliver_lem s m
        (record { deleted = false; hlc = header; live_duplicate = l.0; tombstoned_duplicate = l.1 })
        h,
  )

  pub session-IsCoherent :
      (file : Bool) (tomb : Option (Hlc Uuid)) (r : Replica) (c : ℕ) (l k : Lookups Uuid)
      → IsCoherent r.marks
      → IsCoherent (session s header file tomb r c l k).1
  session-IsCoherent file tomb r c l k h = ground (
    arith,
    read_file-IsCoherent file k (read_tomb s header tomb l r.marks)
        (read_tomb-IsCoherent tomb l r.marks h),
  )

  -- Once the record is deleted, a session neither puts the file back nor leaves the record live.
  pub session-wiped :
      (now w : ℕ) (tomb : Option (Hlc Uuid)) (r : Replica) (c : ℕ) (l k : Lookups Uuid)
      → 4 * skew ≤ 432_000
      → Reads skew now c
      → w ≤ now
      → IsCoherent r.marks
      → Waits skew now tomb w r
      → ((session s header false tomb r c l k).0 ≡ false)
        × (is_live (session s header false tomb r c l k).1 ≡ false)
  session-wiped now w (some t) r c l k q rd le h wait = ground (
    arith,
    deliver_lem s r.marks
        (record { deleted = true; hlc = t; live_duplicate = l.0; tombstoned_duplicate = l.1 }) h,
  )
  session-wiped now w none r c l k q rd le h wait =
      ground (arith, rejoin_away (pos r.last_seen) (pos c))
