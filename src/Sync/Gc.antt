-- ===== src/Sync/Gc.antt =====
-- gc_eligible, device_is_stale and rejoin_action: when a tombstone may be forgotten.
use clipy_si_core.Common.{
  ℕ, ◌+◌, ◌*◌, ◌<◌, ◌≡◌, refl, ◌↔◌, ◌⊎◌, inl, inr, Bool, true, false, List, [], ◌∷◌, arith, All,
  all, keep, not,
}
use clipy_si_core.Common.Int.{
  ℤ, pos, negsuc, pos_part, neg_part, ◌≤ℤ◌, ◌<ℤ◌, IsI64, scale, wrapping_mul, wrapping_mul-scale,
  leb_ℤ, saturating_sub_order,
}
use clipy_si_core.Record.{Hlc}
use clipy_si_core.Sync.{
  DevicePresence, device_is_stale, rejoin_action, gc_eligible, delete_locally, repush,
}

-- Seconds whose milliseconds fit an `i64`.
abbrev pub IsSeconds : ℤ → Type 0
IsSeconds s = IsI64 (scale 1000 s)

-- `a + k < b`.
abbrev pub IsPast : ℤ → ℕ → ℤ → Type 0
IsPast a k b = pos_part a + k + neg_part b < pos_part b + neg_part a

-- A device is stale exactly when it was last seen more than 30 days ago.
pub device_is_stale_iff :
    (last now : ℤ)
    → IsI64 last
    → IsI64 now
    → (device_is_stale last now ≡ true) ↔ IsPast last 2_592_000 now
unfolding device_is_stale
device_is_stale_iff last now h k = ground (arith, saturating_sub_order now last 2_592_000)

IsSeconds→ : (s : ℤ) → IsSeconds s → IsI64 s
IsSeconds→ (pos n) h = omega arith
IsSeconds→ (negsuc n) h = omega arith

rejoin_stale :
    (last now later : ℤ)
    → IsSeconds last
    → IsSeconds later
    → now ≤ℤ later
    → IsPast last 2_592_000 now
    → rejoin_action last later ≡ delete_locally
unfolding rejoin_action
rejoin_stale last now later h l o past =
    ground (arith, device_is_stale_iff last later (IsSeconds→ last h) (IsSeconds→ later l))

-- A device that was away for longer than the 30 days is told to delete.
pub rejoin_away :
    (last now : ℤ)
    → IsI64 last
    → IsI64 now
    → IsPast last 2_592_000 now
    → rejoin_action last now ≡ delete_locally
unfolding rejoin_action
rejoin_away last now h k past = ground (arith, device_is_stale_iff last now h k)

-- A device that was not is told to publish again.
pub rejoin_fresh :
    (last now : ℤ)
    → IsI64 last
    → IsI64 now
    → ¬ IsPast last 2_592_000 now
    → rejoin_action last now ≡ repush
unfolding rejoin_action
rejoin_fresh last now h k fresh = ground (arith, device_is_stale_iff last now h k)

wrapping_mul_negative :
    (s : ℕ)
    → 0x7fff_ffff_ffff_ffff < 1000 * s
    → 1000 * s < 0x1_0000_0000_0000_0000
    → wrapping_mul (pos s) 1000 <ℤ pos 0
unfolding wrapping_mul
wrapping_mul_negative s lo hi = ground arith

-- Seen after the tombstone was written.
abbrev pub HasSeen : {Uuid : Type 0} → Hlc Uuid → DevicePresence → Type 0
HasSeen t d = t.wall_millis ≤ℤ scale 1000 d.last_seen_secs

module _ {Uuid : Type 0} (t : Hlc Uuid) where
  abbrev acknowledged : List DevicePresence → ℤ → Bool
  acknowledged devices now =
      all (λ d. leb_ℤ t.wall_millis (wrapping_mul d.last_seen_secs 1000))
        (keep (λ d. not (device_is_stale d.last_seen_secs now)) devices)

  acknowledged_iff :
      (devices : List DevicePresence) (now : ℤ)
      → IsSeconds now
      → All (λ d. IsSeconds d.last_seen_secs) devices
      → (acknowledged devices now ≡ true)
        ↔ All (λ d. IsPast d.last_seen_secs 2_592_000 now ⊎ HasSeen t d) devices
  acknowledged_iff [] now n h = ((λ _. tt), (λ _. refl))
  acknowledged_iff (d ∷ ds) now n h = ground (
    arith,
    device_is_stale_iff d.last_seen_secs now (IsSeconds→ d.last_seen_secs h.0) (IsSeconds→ now n),
    wrapping_mul-scale d.last_seen_secs 1000 h.0,
    acknowledged_iff ds now n h.1,
  )

  -- For times whose milliseconds fit an `i64`, a tombstone may be removed exactly when it is more
  -- than 35 days old and each device is stale or was seen after the tombstone was written.
  pub gc_eligible_iff :
      (devices : List DevicePresence) (now : ℤ)
      → IsI64 t.wall_millis
      → IsSeconds now
      → All (λ d. IsSeconds d.last_seen_secs) devices
      → (gc_eligible t devices now ≡ true) ↔ (
          IsPast t.wall_millis 3_024_000_000 (scale 1000 now)
          × All (λ d. IsPast d.last_seen_secs 2_592_000 now ⊎ HasSeen t d) devices)
  unfolding gc_eligible
  gc_eligible_iff devices now w n h = ground (
    arith,
    wrapping_mul-scale now 1000 n,
    saturating_sub_order (scale 1000 now) t.wall_millis 3_024_000_000,
    acknowledged_iff devices now n h,
  )

  -- A tombstone that may be removed is more than 35 days old, whatever the devices say.
  pub gc_eligible-IsPast :
      (devices : List DevicePresence) (now : ℤ)
      → IsSeconds now
      → gc_eligible t devices now ≡ true
      → IsPast t.wall_millis 3_024_000_000 (scale 1000 now)
  unfolding gc_eligible
  gc_eligible-IsPast devices now n h = ground (
    arith,
    wrapping_mul-scale now 1000 n,
    saturating_sub_order (scale 1000 now) t.wall_millis 3_024_000_000,
  )

  -- Past the retention, a device that has not seen the tombstone has been away for longer than the
  -- 30 days after which it is stale.
  stale_or_seen :
      (devices : List DevicePresence) (now : ℤ)
      → IsPast t.wall_millis 3_024_000_000 (scale 1000 now)
      → All (λ d. IsPast d.last_seen_secs 2_592_000 now ⊎ HasSeen t d) devices
  stale_or_seen [] now h = tt
  stale_or_seen (d ∷ ds) now h = (ground arith, stale_or_seen ds now h)

  -- For times whose milliseconds fit an `i64`, a tombstone may be removed exactly when it is more
  -- than 35 days old, whenever the devices were last seen.
  pub gc_eligible_age :
      (devices : List DevicePresence) (now : ℤ)
      → IsI64 t.wall_millis
      → IsSeconds now
      → All (λ d. IsSeconds d.last_seen_secs) devices
      → (gc_eligible t devices now ≡ true) ↔ IsPast t.wall_millis 3_024_000_000 (scale 1000 now)
  gc_eligible_age devices now w n h =
      let iff = gc_eligible_iff devices now w n h in
      ((λ e. (iff.0 e).0), (λ past. iff.1 (past, stale_or_seen devices now past)))

  -- The zombie guard, for times whose milliseconds fit an `i64`: if a tombstone may be removed,
  -- each device was seen after it was written, or is told when it comes back, then or later, to
  -- delete locally what is gone.
  pub gc_eligible-rejoin :
      (devices : List DevicePresence) (now later : ℤ)
      → IsI64 t.wall_millis
      → IsSeconds now
      → IsSeconds later
      → now ≤ℤ later
      → All (λ d. IsSeconds d.last_seen_secs) devices
      → gc_eligible t devices now ≡ true
      → All (λ d. HasSeen t d ⊎ (rejoin_action d.last_seen_secs later ≡ delete_locally)) devices
  gc_eligible-rejoin devices now later w n l o h e =
      each devices h ((gc_eligible_iff devices now w n h).0 e).1
    where
      each :
          (ds : List DevicePresence)
          → All (λ d. IsSeconds d.last_seen_secs) ds
          → All (λ d. IsPast d.last_seen_secs 2_592_000 now ⊎ HasSeen t d) ds
          → All (λ d. HasSeen t d ⊎ (rejoin_action d.last_seen_secs later ≡ delete_locally)) ds
      each [] h k = tt
      each (d ∷ ds) h (inr seen, k) = (inl seen, each ds h.1 k)
      each (d ∷ ds) h (inl past, k) =
          (inr (rejoin_stale d.last_seen_secs now later h.0 l o past), each ds h.1 k)

  -- The unchecked `last_seen_secs * 1000` wraps to a negative number where it is above `i64_max`
  -- and below 2^64: while such a device is fresh, a tombstone whose wall is not negative cannot be
  -- removed.
  pub gc_eligible_wraps :
      (devices : List DevicePresence) (now : ℤ) (s : ℕ)
      → pos 0 ≤ℤ t.wall_millis
      → IsI64 now
      → 0x7fff_ffff_ffff_ffff < 1000 * s
      → 1000 * s < 0x1_0000_0000_0000_0000
      → ¬ IsPast (pos s) 2_592_000 now
      → gc_eligible t (record { last_seen_secs = pos s } ∷ devices) now ≡ false
  unfolding gc_eligible
  gc_eligible_wraps devices now s w n lo hi fresh =
      ground (arith, device_is_stale_iff (pos s) now, wrapping_mul_negative s)
