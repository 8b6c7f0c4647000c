-- ===== src/Sync/Folder.antt =====
-- Two devices that share a folder, numbered 1 and 2. Device 1 issues a stamp, and device 2 receives
-- it with a clock that is behind and issues one.
use clipy_si_core.Common.{ℕ, ◌≡◌, ◌<◌, ◌+◌, Ordering, none, some, OnSome, All, List, [], ◌∷◌, arith}
use clipy_si_core.Common.Int.{ℤ, pos, ◌≤ℤ◌, max_ℤ, min_ℤ, saturating_add}
use clipy_si_core.Extern.Uuid.{text_uuid}
use clipy_si_core.Record.{Hlc}
use clipy_si_core.Sync.{hlc_compare, hlc_next, hlc_receive}
use clipy_si_core.Sync.Causality.{hlc_next-Leads}
use clipy_si_core.Sync.Causality
use clipy_si_core.Sync.History.{IsWithin}
use clipy_si_core.Sync.Network.{
  Distinct, issue, receive, start, put, Reach, published-Distinct, Reach-IsWithin,
}
use native.Mathlib.Decide.{ℕ_discrete}

abbrev stamp : {Uuid : Type 0} → ℤ → ℕ → Uuid → Hlc Uuid
stamp wall counter node = record { wall_millis = wall; counter = counter; node = node }

-- Device 1 issues a stamp at 5000, and device 2, which is at 1000, receives it and issues one.
abbrev shared : Reach ℕ_discrete 5000 2 (record {
  clocks =
      put ℕ_discrete
        (put ℕ_discrete
          (put ℕ_discrete (λ n. none) 1 (stamp (pos 5000) 0 1))
          2
          (stamp (pos 5000) 1 2))
        2
        (stamp (pos 5000) 2 2);
  published = stamp (pos 5000) 2 2 ∷ stamp (pos 5000) 0 1 ∷ [];
})
unfolding hlc_next hlc_receive max_ℤ min_ℤ saturating_add ℕ_discrete
shared =
    issue 2 (pos 1000)
      (receive 2 (stamp (pos 5000) 0 1) (pos 1000)
        (issue 1 (pos 5000) start (omega arith) (omega arith))
        (omega arith, omega arith, record { wall = omega arith; count = omega arith }))
      (omega arith) (omega arith)

published-Distinct_example : Distinct {Uuid = ℕ} (stamp (pos 5000) 2 2 ∷ stamp (pos 5000) 0 1 ∷ [])
published-Distinct_example =
    published-Distinct ℕ_discrete {b = 5000} shared
      (let h : 5000 + 86_400_000 + 2 < 0x7fff_ffff_ffff_ffff = omega arith in h)

Reach-IsWithin_example :
    ((n : ℕ)
      → OnSome (IsWithin 86_405_002) (
          put ℕ_discrete
            (put ℕ_discrete
              (put ℕ_discrete (λ n. none) 1 (stamp (pos 5000) 0 1))
              2
              (stamp (pos 5000) 1 2))
            2
            (stamp (pos 5000) 2 2)
            n))
    × All {A = Hlc ℕ}
        (λ p. p.wall_millis ≤ℤ pos 86_405_002)
        (stamp (pos 5000) 2 2 ∷ stamp (pos 5000) 0 1 ∷ [])
Reach-IsWithin_example =
    Reach-IsWithin ℕ_discrete {b = 5000} shared
      (let h : 5000 + 86_400_000 + 2 < 0x7fff_ffff_ffff_ffff = omega arith in h)

abbrev sent : Hlc (List ℕ)
sent = stamp (pos 5000) 0 (1 ∷ [])

-- Device 2 hears it as its first stamp, and issues one.
hlc_next-Leads_example :
    hlc_compare ⦃u = text_uuid⦄ sent
      (hlc_next (some (hlc_receive none sent (pos 1000) (2 ∷ []))) (pos 1000) (2 ∷ []))
    ≡ Ordering.lt
unfolding hlc_next hlc_receive max_ℤ min_ℤ saturating_add
hlc_next-Leads_example =
    hlc_next-Leads ⦃u = text_uuid⦄ {b = 5000} {k = 1} (pos 1000) (2 ∷ [])
      (Causality.reaches none (pos 1000) (2 ∷ [])
        (Causality.start (record { wall = omega arith; count = omega arith }, omega arith))
        (omega arith) tt (omega arith) (omega arith) (omega arith))
      (let h : 5000 + 86_400_000 + 1 < 0x7fff_ffff_ffff_ffff = omega arith in h) (omega arith)
