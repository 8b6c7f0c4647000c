-- ===== src/Sync/Deliveries.antt =====
-- Runs of deliveries and of garbage collection, and their theorems at concrete inputs.
use clipy_si_core.Common.{
  ℕ, ◌≡◌, refl, ◌↔◌, ◌⊎◌, true, false, ◌||◌, none, List, [], ◌∷◌, arith, All,
}
use clipy_si_core.Common.Int.{ℤ, pos, scale}
use mathlib.Core.List.{Permᴰ}
use clipy_si_core.Extern.Uuid.{text_uuid}
use clipy_si_core.Record.{Hlc}
use clipy_si_core.Sync.{MergeAction, gc_eligible, DevicePresence}
use clipy_si_core.Sync.Merge.{
  Marks, Delivery, Shell, deletes, deliver_all, deliver_all-marks, deliver_all-Perm,
}
use clipy_si_core.Sync.Gc.{IsPast, HasSeen, gc_eligible_iff, gc_eligible_age, gc_eligible_wraps}
use clipy_si_core.Sync.Examples.{node_a, node_b, stamp}

unfoldable pub obey : MergeAction → Marks → Marks
obey a m = record { applied = true; applied_deleted = m.applied_deleted || deletes a }

pub obey_deleted :
    (a : MergeAction) (m : Marks)
    → deletes a ≡ true
    → obey a m ≡ record { applied = true; applied_deleted = true }
unfolding obey
obey_deleted a m h = ground arith

pub obey_applied :
    (a : MergeAction) (m : Marks)
    → deletes a ≡ false
    → obey a m ≡ record { applied = true; applied_deleted = m.applied_deleted }
unfolding obey
obey_applied a m h = ground arith

-- A shell that does what it is told.
abbrev pub dutiful : Shell
dutiful = record { execute = obey; marks_deleted = obey_deleted; marks_applied = obey_applied }

abbrev unknown : Marks
unknown = record { applied = false; applied_deleted = false }

abbrev live_file : Delivery (List ℕ)
live_file = record {
  deleted = false;
  hlc = stamp (pos 100) 0 node_b;
  live_duplicate = false;
  tombstoned_duplicate = none;
}

abbrev tomb_file : Delivery (List ℕ)
tomb_file = record {
  deleted = true;
  hlc = stamp (pos 200) 0 node_b;
  live_duplicate = false;
  tombstoned_duplicate = none;
}

deliver_all-marks_example :
    deliver_all ⦃u = text_uuid⦄ dutiful unknown (tomb_file ∷ live_file ∷ [])
    ≡ record { applied = true; applied_deleted = true }
deliver_all-marks_example =
    deliver_all-marks ⦃u = text_uuid⦄ dutiful unknown tomb_file (live_file ∷ []) (λ e. e)

-- The same file where another live clip has its content.
abbrev crowded_file : Delivery (List ℕ)
crowded_file = record live_file { live_duplicate = true }

deliver_all-Perm_example :
    deliver_all ⦃u = text_uuid⦄ dutiful unknown (live_file ∷ tomb_file ∷ [])
    ≡ deliver_all ⦃u = text_uuid⦄ dutiful unknown (tomb_file ∷ crowded_file ∷ [])
deliver_all-Perm_example =
    deliver_all-Perm ⦃u = text_uuid⦄ dutiful unknown (live_file ∷ tomb_file ∷ [])
      (tomb_file ∷ crowded_file ∷ []) (λ e. e) (Permᴰ.swap refl refl)

abbrev seen : ℤ → DevicePresence
seen s = record { last_seen_secs = s }

-- A tombstone of day 20; one device last seen on day 12, one on day 50.
abbrev late_tomb : Hlc (List ℕ)
late_tomb = stamp (pos 1_728_000_000) 0 node_a

abbrev two_devices : List DevicePresence
two_devices = seen (pos 1_036_800) ∷ seen (pos 4_320_000) ∷ []

removable_when : (gc_eligible late_tomb two_devices (pos 4_838_400) ≡ true) ↔ (
    IsPast (pos 1_728_000_000) 3_024_000_000 (scale 1000 (pos 4_838_400))
    × All
        (λ d. IsPast d.last_seen_secs 2_592_000 (pos 4_838_400) ⊎ HasSeen late_tomb d)
        two_devices)
removable_when =
    gc_eligible_iff late_tomb two_devices (pos 4_838_400) (omega arith) (omega arith) (omega arith)

gc_eligible_age_example :
    (gc_eligible late_tomb two_devices (pos 4_838_400) ≡ true)
    ↔ IsPast (pos 1_728_000_000) 3_024_000_000 (scale 1000 (pos 4_838_400))
gc_eligible_age_example =
    gc_eligible_age late_tomb two_devices (pos 4_838_400) (omega arith) (omega arith) (omega arith)

gc_eligible_wraps_example :
    gc_eligible late_tomb (seen (pos 9_223_372_036_854_776) ∷ []) (pos 4_838_400) ≡ false
gc_eligible_wraps_example =
    gc_eligible_wraps late_tomb [] (pos 4_838_400) 9_223_372_036_854_776 (omega arith) (omega arith)
      (omega arith) (omega arith) (omega arith)
