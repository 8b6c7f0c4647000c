-- ===== src/Sync/Library/Runs.antt =====
-- A device that receives a clip, a copy of it from another device, the deletion of the first, and
-- copies from before and after that deletion.
use clipy_si_core.Common.{
  ℕ, ◌≡◌, ◌↔◌, ◌⊎◌, refl, map, Bool, true, false, List, [], ◌∷◌, arith, any, All,
}
use clipy_si_core.Common.Int.{pos}
use clipy_si_core.Extern.Uuid.{number_uuid}
use clipy_si_core.Record.{RecordHeader}
use clipy_si_core.Sync.{
  MergeAction, apply_remote, apply_tombstone, record_tombstone_only, skip, skip_duplicate_content,
  merge_decide, hlc_compare,
}
use clipy_si_core.Sync.Library.{
  Status, live, deleted, suppressed, Entry, Library, entry_of, bury, LibraryShell, decision, newest,
  summary, receive, receive_all,
}
use clipy_si_core.Sync.Library.Arrival.{receive_all-holds}
use clipy_si_core.Sync.Library.Content.{
  IsTidy, Admits, holds, receive_all-IsTidy, decision-apply_iff, receive-holds_iff, IsFresh,
}

abbrev perform : MergeAction → RecordHeader ℕ → Library ℕ → Library ℕ
perform apply_remote h lib = entry_of h live ∷ lib
perform apply_tombstone h lib = map (bury ⦃u = number_uuid⦄ h) lib
perform record_tombstone_only h lib = entry_of h deleted ∷ lib
perform skip h lib = lib
perform skip_duplicate_content h lib = entry_of h suppressed ∷ lib

abbrev shell : LibraryShell ℕ ⦃u = number_uuid⦄
shell = record {
  execute = perform;
  inserts = λ h lib. refl;
  buries = λ h lib. refl;
  notes_deleted = λ h lib. refl;
  skips = λ h lib. refl;
  suppresses = λ h lib. refl;
}

abbrev clip : ℕ → ℕ → Bool → RecordHeader ℕ
clip id wall dead = record {
  format_version = 1;
  record_id = id;
  origin_device_id = 9;
  hlc = record { wall_millis = pos wall; counter = 0; node = 9 };
  created_at = pos 0;
  updated_at = pos 0;
  deleted = dead;
  sync_hash = b'a' ∷ [];
}

-- A clip, its copy, and the deletion of the first from before the copy was made.
receive_all-holds_example :
    (any (holds ⦃u = number_uuid⦄ (clip 2 20 false)) (
        receive_all ⦃u = number_uuid⦄ shell []
          (clip 1 10 false ∷ clip 2 20 false ∷ clip 1 15 true ∷ []))
      ≡ false)
    × (any (holds ⦃u = number_uuid⦄ (clip 2 20 false)) (
          receive_all ⦃u = number_uuid⦄ shell []
            (clip 1 15 true ∷ clip 1 10 false ∷ clip 2 20 false ∷ []))
        ≡ true)
unfolding hlc_compare
receive_all-holds_example =
    receive_all-holds ⦃u = number_uuid⦄ shell [] (clip 1 10 false) (clip 2 20 false)
      (clip 1 15 true)
      (record {
        live_first = refl;
        live_copy = refl;
        other_record = λ e. absurd (omega arith);
        same_content = refl;
        deletion = refl;
        same_record = refl;
        deleted_content = refl;
      })
      tt tt refl

abbrev received : List (RecordHeader ℕ)
received =
    clip 1 10 false ∷ clip 2 20 false ∷ clip 1 30 true ∷ clip 3 25 false ∷ clip 4 40 false ∷ []

abbrev entry : ℕ → ℕ → Status → Entry ℕ
entry id wall status = record {
  id = id;
  sync_hash = b'a' ∷ [];
  hlc = record { wall_millis = pos wall; counter = 0; node = 9 };
  status = status;
}

-- What comes of it: the last copy is live, the others are suppressed or deleted.
abbrev held : Library ℕ
held = entry 4 40 live ∷ entry 3 25 suppressed ∷ entry 2 20 suppressed ∷ entry 1 30 deleted ∷ []

run : receive_all ⦃u = number_uuid⦄ shell [] received ≡ held
unfolding receive_all receive summary newest merge_decide hlc_compare
run = refl

receive_all-IsTidy_example :
    IsTidy ⦃u = number_uuid⦄ (receive_all ⦃u = number_uuid⦄ shell [] received)
receive_all-IsTidy_example = receive_all-IsTidy ⦃u = number_uuid⦄ shell [] received tt

decision-apply_iff_example :
    (decision ⦃u = number_uuid⦄ held (clip 5 50 false) ≡ apply_remote)
    ↔ ((clip 5 50 false).deleted ≡ false) × All (Admits ⦃u = number_uuid⦄ (clip 5 50 false)) held
decision-apply_iff_example = decision-apply_iff ⦃u = number_uuid⦄ held (clip 5 50 false)

receive-holds_iff_example :
    (any
        (holds ⦃u = number_uuid⦄ (clip 5 50 false))
        (receive ⦃u = number_uuid⦄ shell held (clip 5 50 false))
      ≡ true)
    ↔ (any (holds ⦃u = number_uuid⦄ (clip 5 50 false)) held ≡ true)
      ⊎ IsFresh ⦃u = number_uuid⦄ (clip 5 50 false) held
receive-holds_iff_example =
    receive-holds_iff ⦃u = number_uuid⦄ shell held (clip 5 50 false) refl refl
