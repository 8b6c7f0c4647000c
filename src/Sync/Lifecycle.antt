-- ===== src/Sync/Lifecycle.antt =====
-- The life of one record in a vault folder, over any number of devices: it is published, pulled,
-- deleted, its tombstone collected, and put back when the provider loses its file. Each step makes
-- its decision by merge_decide, hlc_next, gc_eligible or rejoin_action; what the shell does around
-- them is what the comments in sync/mod.rs say of it: tombstones are read before live records, a
-- deletion is a tombstone in place of the record file, and rejoining is for a record that was
-- applied, is not deleted and is in neither listing. A provider may lose record files, not
-- tombstones, and every device sees the folder as it is.
pub mod Invariant
pub mod Steps
pub mod Safety
mod Runs
use mathlib.Core.Logic.{ite}
use clipy_si_core.Common.{
  ℕ, ◌+◌, ◌*◌, ◌≤◌, ◌≡◌, Bool, true, false, not, ◌&&◌, Option, none, some, List, arith, OnSome,
}
use clipy_si_core.Common.Int.{ℤ, pos}
use clipy_si_core.Extern.Uuid.{UuidOps}
use clipy_si_core.Record.{Hlc, IsStamp}
use clipy_si_core.Sync.{
  hlc_next, gc_eligible, DevicePresence, RejoinAction, delete_locally, repush, rejoin_action,
}
use clipy_si_core.Sync.Gc.{IsSeconds}
use clipy_si_core.Sync.Merge.{Marks, Shell, deliver}

-- One device: its marks of the record, and the seconds at which it last completed a session.
pub record Replica : Type 0 where
  pub marks : Marks
  pub last_seen : ℕ

-- The true time in seconds, the record file and the tombstone in the folder, and the devices.
-- `wiped` is the time of the first deletion: no step reads it.
pub record World (Uuid : Type 0) : Type 0 where
  pub now : ℕ
  pub file : Bool
  pub tomb : Option (Hlc Uuid)
  pub replicas : Uuid → Replica
  pub wiped : Option ℕ

-- What the two lookups by content say about one delivery.
abbrev pub Lookups : Type 0 → Type 0
Lookups Uuid = Bool × Option (Hlc Uuid)

abbrev pub unknown : Marks
unknown = record { applied = false; applied_deleted = false }

abbrev pub known : Marks
known = record { applied = true; applied_deleted = false }

abbrev pub deleted : Marks
deleted = record { applied = true; applied_deleted = true }

-- Applied and not deleted.
abbrev pub is_live : Marks → Bool
is_live m = m.applied && not m.applied_deleted

abbrev is_none : {A : Type 0} → Option A → Bool
is_none none = true
is_none (some x) = false

-- The record file and the marks after rejoining, where there is something to rejoin.
abbrev pub rejoined : Bool → RejoinAction → Bool → Marks → Bool × Marks
rejoined false action file m = (file, m)
rejoined true delete_locally file m = (file, deleted)
rejoined true repush file m = (true, m)

abbrev pub first_time : ℕ → Option ℕ → Option ℕ
first_time now none = some now
first_time now (some w) = some w

-- A device's reading of the time: within `skew` seconds of it.
abbrev pub Reads : ℕ → ℕ → ℕ → Type 0
Reads skew now c = (c ≤ now + skew) × (now ≤ c + skew) × IsSeconds (pos c)

module _ {Uuid : Type 0} ⦃u : UuidOps Uuid⦄ (s : Shell) (header : Hlc Uuid) where
  abbrev pub read_tomb : Option (Hlc Uuid) → Lookups Uuid → Marks → Marks
  read_tomb none l m = m
  read_tomb (some t) l m =
      deliver s m
        (record { deleted = true; hlc = t; live_duplicate = l.0; tombstoned_duplicate = l.1 })

  abbrev pub read_file : Bool → Lookups Uuid → Marks → Marks
  read_file false l m = m
  read_file true l m =
      deliver s m
        (record { deleted = false; hlc = header; live_duplicate = l.0; tombstoned_duplicate = l.1 })

  -- What a session of one device at the reading `c` makes of the record file and of its marks.
  abbrev pub session :
      Bool → Option (Hlc Uuid) → Replica → ℕ → Lookups Uuid → Lookups Uuid → Bool × Marks
  session file tomb r c l k =
      let m = read_file file k (read_tomb tomb l r.marks) in
      rejoined (not file && is_none tomb && is_live m) (rejoin_action (pos r.last_seen) (pos c))
        file m

module _ {Uuid : Type 0} (same : Discrete Uuid) where
  abbrev pub put : (Uuid → Replica) → Uuid → Replica → Uuid → Replica
  put replicas d r n = ite (same n d) r (replicas n)

  -- Device `d` deletes the record: the tombstone takes the place of the file.
  abbrev pub delete_record : World Uuid → Uuid → Option (Hlc Uuid) → ℕ → World Uuid
  delete_record w d clock c = record w {
    file = false;
    tomb = some (hlc_next clock (pos (1000 * c)) d);
    replicas = put w.replicas d (record { marks = deleted; last_seen = (w.replicas d).last_seen });
    wiped = first_time w.now w.wiped;
  }

  module _ ⦃u : UuidOps Uuid⦄ (s : Shell) (header : Hlc Uuid) where
    abbrev pub pull : World Uuid → Uuid → ℕ → Lookups Uuid → Lookups Uuid → World Uuid
    pull w d c l k =
        let (file', m) = session s header w.file w.tomb (w.replicas d) c l k in
        record w { file = file'; replicas = put w.replicas d (record { marks = m; last_seen = c }) }

    -- The folder of a record published by one device at time `b`, at any later time.
    pub data Reach (skew : ℕ) : World Uuid → Type 0 where
      publish :
          (d : Uuid) (b : ℕ)
          → Reach skew (record {
            now = b;
            file = true;
            tomb = none;
            replicas =
                put
                  (λ n. record { marks = unknown; last_seen = 0 })
                  d
                  (record { marks = known; last_seen = b });
            wiped = none;
          })
      tick : {w : World Uuid} (k : ℕ) → Reach skew w → Reach skew (record w { now = w.now + k })
      lose : {w : World Uuid} → Reach skew w → Reach skew (record w { file = false })
      delete :
          {w : World Uuid} (d : Uuid) (clock : Option (Hlc Uuid)) (c : ℕ)
          → Reach skew w
          → Reads skew w.now c
          → OnSome (λ p. IsStamp p) clock
          → is_live (w.replicas d).marks ≡ true
          → Reach skew (delete_record w d clock c)
      sync :
          {w : World Uuid} (d : Uuid) (c : ℕ) (l k : Lookups Uuid)
          → Reach skew w
          → Reads skew w.now c
          → Reach skew (pull w d c l k)
      collect :
          {w : World Uuid} (t : Hlc Uuid) (devices : List DevicePresence) (c : ℕ)
          → Reach skew w
          → Reads skew w.now c
          → w.tomb ≡ some t
          → gc_eligible t devices (pos c) ≡ true
          → Reach skew (record w { tomb = none })
