-- ===== src/Sync/Lifecycle/Runs.antt =====
-- A record that device 1 publishes and deletes, while device 2 is away for 37 days.
use clipy_si_core.Common.{ℕ, ◌≡◌, refl, true, false, none, some, [], arith}
use clipy_si_core.Common.Int.{pos, saturating_sub, wrapping_mul}
use clipy_si_core.Extern.Uuid.{number_uuid}
use clipy_si_core.Record.{Hlc}
use clipy_si_core.Sync.{hlc_next, gc_eligible, device_is_stale, rejoin_action, merge_decide}
use clipy_si_core.Sync.Merge.{deliver}
use clipy_si_core.Sync.Deliveries.{obey, dutiful}
use clipy_si_core.Sync.Lifecycle.{
  World, Lookups, is_live, pull, Reach, publish, tick, lose, delete, sync, collect,
}
use clipy_si_core.Sync.Lifecycle.Safety.{deleted_stays_gone, pull-deletes, pull-restores}
use native.Mathlib.Decide.{ℕ_discrete}

abbrev header : Hlc ℕ
header = record { wall_millis = pos 1_000_000; counter = 0; node = 1 }

abbrev nothing : Lookups ℕ
nothing = (false, none)

abbrev tomb : Hlc ℕ
tomb = record { wall_millis = pos 3_000_000; counter = 0; node = 1 }

-- Published at 1000, pulled by device 2 at 2000, deleted at 3000, collected 36 days later.
abbrev collected : (v : World ℕ) × Reach ℕ_discrete ⦃u = number_uuid⦄ dutiful header 86_400 v
unfolding hlc_next gc_eligible saturating_sub wrapping_mul device_is_stale ℕ_discrete
collected = (
  _,
  collect tomb [] 3_113_400
      (tick 3_110_400 (
        delete 1 none 3000
          (tick 1000 (
            sync 2 2000 nothing nothing (tick 1000 (publish 1 1000))
              (omega arith, omega arith, (omega arith, omega arith))))
          (omega arith, omega arith, (omega arith, omega arith)) tt refl))
      (omega arith, omega arith, (omega arith, omega arith)) refl refl,
)

deleted_stays_gone_example : collected.0.file ≡ false
unfolding collected
deleted_stays_gone_example =
    deleted_stays_gone ℕ_discrete ⦃u = number_uuid⦄ dutiful header {skew = 86_400} {w = 3000}
      (omega arith) collected.1 refl

pull-deletes_example :
    is_live
      ((pull ℕ_discrete ⦃u = number_uuid⦄ dutiful header collected.0 2 3_190_000 nothing
          nothing).replicas
        2).marks
    ≡ false
unfolding collected
pull-deletes_example =
    pull-deletes ℕ_discrete ⦃u = number_uuid⦄ dutiful header {skew = 86_400} {w = 3000} 2 3_190_000
      nothing nothing (omega arith) collected.1 refl
      (omega arith, omega arith, (omega arith, omega arith))

-- The bound on the skew cannot be dropped. With readings 108,001 seconds off, one second more than
-- a quarter of the slack, a device that pulled just before the deletion puts the file back.
zombie :
    (v : World ℕ) × Reach ℕ_discrete ⦃u = number_uuid⦄ dutiful header 108_001 v
    × (v.wiped ≡ some 1_000_000)
    × (v.file ≡ true)
unfolding obey deliver merge_decide hlc_next gc_eligible saturating_sub wrapping_mul device_is_stale
    rejoin_action ℕ_discrete
zombie = (
  _,
  sync 2 3_699_998 nothing nothing
      (collect (record tomb { wall_millis = pos 891_999_000 }) [] 3_916_000
        (tick 2_807_999 (
          delete 1 none 891_999
            (sync 2 1_108_001 nothing nothing (publish 1 1_000_000)
              (omega arith, omega arith, (omega arith, omega arith)))
            (omega arith, omega arith, (omega arith, omega arith)) tt refl))
        (omega arith, omega arith, (omega arith, omega arith)) refl refl)
      (omega arith, omega arith, (omega arith, omega arith)),
  refl,
  refl,
)

-- The provider loses the file of a record that device 1 had published.
abbrev lost : (v : World ℕ) × Reach ℕ_discrete ⦃u = number_uuid⦄ dutiful header 86_400 v
lost = (_, lose (tick 5000 (publish 1 1000)))

pull-restores_example :
    ((pull ℕ_discrete ⦃u = number_uuid⦄ dutiful header lost.0 1 6000 nothing nothing).file ≡ true)
    × (is_live
          ((pull ℕ_discrete ⦃u = number_uuid⦄ dutiful header lost.0 1 6000 nothing nothing).replicas
            1).marks
        ≡ true)
unfolding ℕ_discrete
pull-restores_example =
    pull-restores ℕ_discrete ⦃u = number_uuid⦄ dutiful header {skew = 86_400} 1 6000 nothing nothing
      lost.1 refl (omega arith, omega arith) (omega arith, omega arith) refl (omega arith)
