-- ===== src/Sync/Lifecycle/Steps.antt =====
-- Every step keeps the invariant.
use mathlib.Core.Logic.{if_pos, if_neg}
use clipy_si_core.Common.{
  ℕ, ◌+◌, ◌*◌, ◌≤◌, ◌≡◌, refl, true, false, Option, none, some, List, arith, OnSome,
}
use clipy_si_core.Common.Int.{pos}
use clipy_si_core.Extern.Uuid.{UuidOps}
use clipy_si_core.Record.{Hlc, IsStamp}
use clipy_si_core.Sync.{gc_eligible, DevicePresence}
use clipy_si_core.Sync.Merge.{Shell, IsCoherent}
use package.clipy_si_core.Sync.Lifecycle.{
  Replica, World, Lookups, unknown, known, deleted, is_live, first_time, put, delete_record,
  session, pull, Reads, Reach, publish, tick, lose, delete, sync, collect,
}
use package.clipy_si_core.Sync.Lifecycle.Invariant.{
  IsLater, Waits, Wiped, IsSettled, Wiped-tick, hlc_next-IsLater, collected_late,
  session-IsCoherent, session-wiped,
}

OnSome-map : {P Q : ℕ → Type 0} (o : Option ℕ) → ((w : ℕ) → P w → Q w) → OnSome P o → OnSome Q o
OnSome-map none f p = tt
OnSome-map (some w) f p = f w p

module _ {Uuid : Type 0} (same : Discrete Uuid) (skew : ℕ) where
  -- What holds of every device holds when one of them changes.
  put_all :
      (P : Replica → Type 0) (replicas : Uuid → Replica) (d : Uuid) (r : Replica)
      → P r
      → ((n : Uuid) → P (replicas n))
      → (n : Uuid) → P (put same replicas d r n)
  put_all P replicas d r p q n = elim (same n d) [
    | yes e ↦ rw (if_pos _ e) p
    | no e ↦ rw (if_neg _ e) (q n)
  ]

  pub put_self :
      (P : Replica → Type 0) (replicas : Uuid → Replica) (d : Uuid) (r : Replica)
      → P r
      → P (put same replicas d r d)
  put_self P replicas d r p = elim (same d d) [ yes e ↦ rw (if_pos _ e) p | no q ↦ absurd (q refl) ]

  publish-IsSettled :
      (d : Uuid) (b : ℕ)
      → IsSettled skew (record {
        now = b;
        file = true;
        tomb = none;
        replicas =
            put same
              (λ n. record { marks = unknown; last_seen = 0 })
              d
              (record { marks = known; last_seen = b });
        wiped = none;
      })
  publish-IsSettled d b = record {
    coherent = put_all (λ r. IsCoherent r.marks) _ d _ (λ e. refl) (λ n e. e);
    seen = put_all (λ r. r.last_seen ≤ b + skew) _ d _ (omega arith) (λ n. omega arith);
    erased = tt;
  }

  tick-IsSettled :
      (v : World Uuid) (k : ℕ) → IsSettled skew v → IsSettled skew (record v { now = v.now + k })
  tick-IsSettled v k i = record {
    coherent = i.coherent;
    seen = λ n. omega (arith, i.seen n);
    erased = OnSome-map v.wiped (λ w. Wiped-tick skew v k w) i.erased;
  }

  lose-IsSettled : (v : World Uuid) → IsSettled skew v → IsSettled skew (record v { file = false })
  lose-IsSettled v i = record {
    coherent = i.coherent;
    seen = i.seen;
    erased = OnSome-map v.wiped (λ w (le, gone, dated, wait). (le, refl, dated, wait)) i.erased;
  }

  -- A device that still has the record waits for the new tombstone.
  delete-Waits :
      (v : World Uuid) (d : Uuid) (t : Hlc Uuid) (w : ℕ)
      → ((n : Uuid) → is_live (v.replicas n).marks ≡ true → (v.replicas n).last_seen ≤ w + skew)
      → (n : Uuid)
      → Waits skew v.now (some t) w (
          put same v.replicas d
            (record { marks = deleted; last_seen = (v.replicas d).last_seen })
            n)
  delete-Waits v d t w h =
      put_all (Waits skew v.now (some t) w) v.replicas d _ (λ e. absurd (let f = e in cc))
        (λ n e. (h n e, λ f. absurd (let g = f in cc)))

  delete-Wiped :
      (v : World Uuid) (d : Uuid) (clock : Option (Hlc Uuid)) (c : ℕ)
      → Reads skew v.now c
      → OnSome (λ p. IsStamp p) clock
      → ((n : Uuid) → (v.replicas n).last_seen ≤ v.now + skew)
      → (wiped : Option ℕ) → OnSome (Wiped skew v) wiped
      → OnSome (Wiped skew (delete_record same v d clock c)) (first_time v.now wiped)
  delete-Wiped v d clock c rd p seen none h = (
    omega arith,
    refl,
    hlc_next-IsLater skew clock d v.now c v.now p rd (omega arith),
    delete-Waits v d _ v.now (λ n e. seen n),
  )
  delete-Wiped v d clock c rd p seen (some w) (le, gone, dated, wait) = (
    le,
    refl,
    hlc_next-IsLater skew clock d v.now c w p rd le,
    delete-Waits v d _ w (λ n e. (wait n e).0),
  )

  delete-IsSettled :
      (v : World Uuid) (d : Uuid) (clock : Option (Hlc Uuid)) (c : ℕ)
      → Reads skew v.now c
      → OnSome (λ p. IsStamp p) clock
      → IsSettled skew v
      → IsSettled skew (delete_record same v d clock c)
  delete-IsSettled v d clock c rd p i = record {
    coherent = put_all (λ r. IsCoherent r.marks) v.replicas d _ (λ e. refl) i.coherent;
    seen = put_all (λ r. r.last_seen ≤ v.now + skew) v.replicas d _ (i.seen d) i.seen;
    erased = delete-Wiped v d clock c rd p i.seen v.wiped i.erased;
  }

  collect-Wiped :
      (v : World Uuid) (t : Hlc Uuid) (devices : List DevicePresence) (c w : ℕ)
      → Reads skew v.now c
      → v.tomb ≡ some t
      → gc_eligible t devices (pos c) ≡ true
      → Wiped skew v w
      → Wiped skew (record v { tomb = none }) w
  collect-Wiped v t devices c w rd e g (le, gone, dated, wait) =
      let later : IsLater skew w t = ground arith in
      let late = collected_late skew t devices v.now c w rd later g in
      (le, gone, tt, λ n live. ((wait n live).0, λ f. late))

  collect-IsSettled :
      (v : World Uuid) (t : Hlc Uuid) (devices : List DevicePresence) (c : ℕ)
      → Reads skew v.now c
      → v.tomb ≡ some t
      → gc_eligible t devices (pos c) ≡ true
      → IsSettled skew v
      → IsSettled skew (record v { tomb = none })
  collect-IsSettled v t devices c rd e g i = record {
    coherent = i.coherent;
    seen = i.seen;
    erased = OnSome-map v.wiped (λ w. collect-Wiped v t devices c w rd e g) i.erased;
  }

  module _ ⦃u : UuidOps Uuid⦄ (s : Shell) (header : Hlc Uuid) (slack : 4 * skew ≤ 432_000) where
    -- A session after the deletion puts nothing back, and leaves the record deleted or unknown.
    pub session-dead :
        (v : World Uuid) (d : Uuid) (c : ℕ) (l k : Lookups Uuid) (w : ℕ)
        → Reads skew v.now c
        → IsCoherent (v.replicas d).marks
        → Wiped skew v w
        → ((session s header v.file v.tomb (v.replicas d) c l k).0 ≡ false)
          × (is_live (session s header v.file v.tomb (v.replicas d) c l k).1 ≡ false)
    session-dead v d c l k w rd coh (le, gone, dated, wait) =
        rw gone
          (session-wiped s header skew v.now w v.tomb (v.replicas d) c l k slack rd le coh (wait d))

    sync-Wiped :
        (v : World Uuid) (d : Uuid) (c : ℕ) (l k : Lookups Uuid) (w : ℕ)
        → Reads skew v.now c
        → IsCoherent (v.replicas d).marks
        → Wiped skew v w
        → Wiped skew (pull same s header v d c l k) w
    sync-Wiped v d c l k w rd coh h =
        let (kept, dead) = session-dead v d c l k w rd coh h in
        let (le, gone, dated, wait) = h in
        (
          le,
          kept,
          dated,
          put_all (Waits skew v.now v.tomb w) v.replicas d _ (λ e. absurd (ground arith)) wait,
        )

    sync-IsSettled :
        (v : World Uuid) (d : Uuid) (c : ℕ) (l k : Lookups Uuid)
        → Reads skew v.now c
        → IsSettled skew v
        → IsSettled skew (pull same s header v d c l k)
    sync-IsSettled v d c l k rd i = record {
      coherent =
          put_all (λ r. IsCoherent r.marks) v.replicas d _
            (session-IsCoherent s header skew v.file v.tomb (v.replicas d) c l k (i.coherent d))
            i.coherent;
      seen = put_all (λ r. r.last_seen ≤ v.now + skew) v.replicas d _ rd.0 i.seen;
      erased = OnSome-map v.wiped (λ w. sync-Wiped v d c l k w rd (i.coherent d)) i.erased;
    }

    pub Reach-IsSettled : {v : World Uuid} → Reach same s header skew v → IsSettled skew v
    Reach-IsSettled (publish d b) = publish-IsSettled d b
    Reach-IsSettled (tick {w} k r) = tick-IsSettled w k (Reach-IsSettled r)
    Reach-IsSettled (lose {w} r) = lose-IsSettled w (Reach-IsSettled r)
    Reach-IsSettled (delete {w} d clock c r rd p live) =
        delete-IsSettled w d clock c rd p (Reach-IsSettled r)
    Reach-IsSettled (sync {w} d c l k r rd) = sync-IsSettled w d c l k rd (Reach-IsSettled r)
    Reach-IsSettled (collect {w} t devices c r rd e g) =
        collect-IsSettled w t devices c rd e g (Reach-IsSettled r)
