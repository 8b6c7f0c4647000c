-- ===== src/Sync/Examples.antt =====
-- Runs of the clock and of single decisions, and their theorems at concrete inputs.
use clipy_si_core.Common.{ℕ, ◌≡◌, refl, ◌↔◌, Ordering, false, none, some, List, [], ◌∷◌, arith}
use clipy_si_core.Common.Int.{ℤ, pos, i64_max, max_ℤ, min_ℤ, saturating_add}
use clipy_si_core.Common.Linear.{IsLinear}
use clipy_si_core.Extern.Uuid.{text_uuid}
use clipy_si_core.Record.{Hlc}
use clipy_si_core.Sync.{hlc_compare, hlc_next, hlc_receive, u32_max, LocalState}
use clipy_si_core.Sync.Order.{hlc_compare-IsLinear, IsEarlier}
use clipy_si_core.Sync.Next.{hlc_next_advances_iff}
use clipy_si_core.Sync.History.{Event, issue, receive, issued, Ascending, issued-Ascending}

abbrev pub node_a : List ℕ
node_a = 10 ∷ []

abbrev pub node_b : List ℕ
node_b = 11 ∷ []

abbrev pub stamp : ℤ → ℕ → List ℕ → Hlc (List ℕ)
stamp wall counter node = record { wall_millis = wall; counter = counter; node = node }

next_backwards :
    hlc_next (some (stamp (pos 1000) 3 node_a)) (pos 500) node_a ≡ stamp (pos 1000) 4 node_a
unfolding hlc_next max_ℤ
next_backwards = refl

next_rolls :
    hlc_next (some (stamp (pos 1000) u32_max node_a)) (pos 1000) node_a ≡ stamp (pos 1001) 0 node_a
unfolding hlc_next max_ℤ saturating_add
next_rolls = refl

receive_clamps :
    hlc_receive
      (some (stamp (pos 1000) 0 node_a))
      (stamp (pos 864_000_000) 0 node_b)
      (pos 1000)
      node_a
    ≡ stamp (pos 86_401_000) 1 node_a
unfolding hlc_receive max_ℤ min_ℤ saturating_add
receive_clamps = refl

hlc_compare-IsLinear_example :
    IsLinear (hlc_compare {Uuid = List ℕ} ⦃u = text_uuid⦄)
    × ((a b : Hlc (List ℕ))
        → (hlc_compare ⦃u = text_uuid⦄ a b ≡ Ordering.lt) ↔ IsEarlier ⦃u = text_uuid⦄ a b)
hlc_compare-IsLinear_example = hlc_compare-IsLinear ⦃u = text_uuid⦄

hlc_next_advances_iff_example :
    (hlc_compare ⦃u = text_uuid⦄
        (stamp (pos 1000) 3 node_a)
        (hlc_next (some (stamp (pos 1000) 3 node_a)) (pos 500) node_a)
      ≡ Ordering.lt)
    ↔ (¬ ((pos 1000 ≡ i64_max) × (◌≡◌ {A = ℕ} 3 u32_max)))
hlc_next_advances_iff_example =
    hlc_next_advances_iff ⦃u = text_uuid⦄ (stamp (pos 1000) 3 node_a) (pos 500) node_a (omega arith)
      (omega arith)

abbrev jumpy : List (Event (List ℕ))
jumpy =
    issue (pos 1000)
    ∷ receive (stamp (pos 1500) 2 node_b) (pos 900)
    ∷ issue (pos 800)
    ∷ issue (pos 3000)
    ∷ []

issued-jumpy :
    issued node_a none jumpy
    ≡ stamp (pos 1000) 0 node_a ∷ stamp (pos 1500) 4 node_a ∷ stamp (pos 3000) 0 node_a ∷ []
unfolding issued hlc_next hlc_receive max_ℤ min_ℤ saturating_add
issued-jumpy = refl

issued-Ascending_example : Ascending ⦃u = text_uuid⦄ none (issued node_a none jumpy)
issued-Ascending_example =
    issued-Ascending ⦃u = text_uuid⦄ node_a jumpy 3000 (omega arith) (omega arith)

abbrev wiped : LocalState (List ℕ)
wiped = record {
  applied = false;
  applied_deleted = false;
  live_duplicate_sync_hash = false;
  tombstoned_duplicate_hlc = some (stamp (pos 100) 0 node_a);
}
