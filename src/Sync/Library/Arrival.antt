-- ===== src/Sync/Library/Arrival.antt =====
-- The order in which envelopes arrive: a clip, a copy of it made elsewhere, and the deletion of the
-- first. The comment at the top of crates/clipy-si-core/src/sync/mod.rs calls the pull immune to
-- out-of-order arrival.
use clipy_si_core.Common.{
  ◌≡◌, ◌≢◌, refl, sym, ap, ◌∙◌, true, false, ◌&&◌, [], ◌∷◌, Ordering, arith, any, inl, inr,
  Bool-cases, eq_bytes_refl, eq_bytes→, keep, map, eq_bytes, All,
}
use clipy_si_core.Extern.Uuid.{UuidOps}
use clipy_si_core.Record.{RecordHeader}
use clipy_si_core.Sync.{
  hlc_compare, MergeAction, apply_remote, apply_tombstone, record_tombstone_only, skip,
  skip_duplicate_content, merge_decide,
}
use clipy_si_core.Sync.Library.Content.{holds}
use package.clipy_si_core.Sync.Library.{
  live, deleted, suppressed, Library, is_deleted, entry_of, same_id, is_entry_of, is_live_duplicate,
  is_wiped_duplicate, newest, summary, bury, LibraryShell, decision, receive, receive_all,
}

module _ {Uuid : Type 0} ⦃u : UuidOps Uuid⦄ where
  receive-by :
      (s : LibraryShell Uuid) {lib l : Library Uuid} {h : RecordHeader Uuid} {a : MergeAction}
      → decision lib h ≡ a
      → s.execute a h lib ≡ l
      → receive s lib h ≡ l
  unfolding receive
  receive-by s {lib = lib} {h = h} e k = ap (λ a. s.execute a h lib) e ∙ k

  -- Neither the record nor its content is known.
  abbrev pub IsNew : RecordHeader Uuid → Library Uuid → Type 0
  IsNew h =
      All (λ e. (same_id e.id h.record_id ≡ false) × (eq_bytes e.sync_hash h.sync_hash ≡ false))

  new_lem :
      (h : RecordHeader Uuid) (lib : Library Uuid)
      → IsNew h lib
      → (any (is_entry_of h) lib ≡ false)
        × (any (λ e. is_entry_of h e && is_deleted e.status) lib ≡ false)
        × (any (is_live_duplicate h) lib ≡ false)
        × (keep (is_wiped_duplicate h) lib ≡ [])
  new_lem h [] a = (refl, refl, refl, refl)
  new_lem h (e ∷ es) a = ground (arith, new_lem h es a.1)

  new-bury :
      (h t : RecordHeader Uuid) (lib : Library Uuid)
      → IsNew h lib
      → any (holds h) (map (bury t) lib) ≡ false
  new-bury h t [] a = refl
  new-bury h t (e ∷ es) a = ground (arith, new-bury h t es a.1)

  same_id_refl : (a : Uuid) → same_id a a ≡ true
  same_id_refl a = eq_bytes_refl (u.as_bytes a)

  same_id_distinct : (a b : Uuid) → a ≢ b → same_id a b ≡ false
  same_id_distinct a b n = elim (Bool-cases (same_id a b)) [
    | inl e ↦ absurd (n (u.as_bytes_injective a b (eq_bytes→ (u.as_bytes a) (u.as_bytes b) e)))
    | inr e ↦ e
  ]

  -- Two live envelopes of different records with the same content, and a deletion of the first one.
  pub record IsRecopied (h copy t : RecordHeader Uuid) : Type 0 where
    pub live_first : h.deleted ≡ false
    pub live_copy : copy.deleted ≡ false
    pub other_record : h.record_id ≢ copy.record_id
    pub same_content : copy.sync_hash ≡ h.sync_hash
    pub deletion : t.deleted ≡ true
    pub same_record : t.record_id ≡ h.record_id
    pub deleted_content : t.sync_hash ≡ h.sync_hash

  -- The deletion has the record and the content of the first envelope.
  deletion-IsNew :
      (h copy t : RecordHeader Uuid) (lib : Library Uuid)
      → IsRecopied h copy t
      → IsNew h lib
      → IsNew t lib
  deletion-IsNew h copy t [] r a = tt
  deletion-IsNew h copy t (e ∷ es) r a = (
    (ap (same_id e.id) r.same_record ∙ a.0.0, ap (eq_bytes e.sync_hash) r.deleted_content ∙ a.0.1),
    deletion-IsNew h copy t es r a.1,
  )

  module _ (lib : Library Uuid) (h copy t : RecordHeader Uuid) (r : IsRecopied h copy t)
      (new : IsNew h lib) (new_copy : IsNew copy lib) where
    apart :
        (same_id h.record_id copy.record_id ≡ false) × (same_id copy.record_id h.record_id ≡ false)
    apart = (
      same_id_distinct h.record_id copy.record_id r.other_record,
      same_id_distinct copy.record_id h.record_id (λ e. r.other_record (sym e)),
    )

    first-inserted : decision lib h ≡ apply_remote
    unfolding merge_decide summary newest
    first-inserted = ground (arith, new_lem h lib new, r.live_first)

    copy-suppressed : decision (entry_of h live ∷ lib) copy ≡ skip_duplicate_content
    unfolding merge_decide summary newest
    copy-suppressed = ground (
      arith,
      new_lem copy lib new_copy,
      apart,
      r.live_copy,
      r.same_content,
      eq_bytes_refl h.sync_hash,
    )

    first-deleted : decision (entry_of copy suppressed ∷ entry_of h live ∷ lib) t ≡ apply_tombstone
    unfolding merge_decide summary newest
    first-deleted = ground (
      arith,
      new_lem t lib (deletion-IsNew h copy t lib r new),
      ap (same_id h.record_id) r.same_record,
      ap (same_id copy.record_id) r.same_record,
      same_id_refl h.record_id,
      apart,
      r.deletion,
    )

    deletion-noted : decision lib t ≡ record_tombstone_only
    unfolding merge_decide summary newest
    deletion-noted = ground (arith, new_lem t lib (deletion-IsNew h copy t lib r new), r.deletion)

    first-skipped : decision (entry_of t deleted ∷ lib) h ≡ skip
    unfolding merge_decide summary newest
    first-skipped = ground (
      arith,
      new_lem h lib new,
      ap (λ a. same_id a h.record_id) r.same_record,
      same_id_refl h.record_id,
      r.live_first,
    )

    copy-inserted :
        hlc_compare copy.hlc t.hlc ≡ Ordering.gt
        → decision (entry_of t deleted ∷ lib) copy ≡ apply_remote
    unfolding merge_decide summary newest
    copy-inserted g = ground (
      arith,
      new_lem copy lib new_copy,
      ap (λ a. same_id a copy.record_id) r.same_record,
      apart,
      r.live_copy,
      r.same_content,
      r.deleted_content,
      eq_bytes_refl h.sync_hash,
    )

    -- What the library shows of the content in the two orders.
    buried_lem :
        any (holds copy) (map (bury t) (entry_of copy suppressed ∷ entry_of h live ∷ lib)) ≡ false
    buried_lem = ground (
      arith,
      new-bury copy t lib new_copy,
      ap (same_id h.record_id) r.same_record,
      ap (same_id copy.record_id) r.same_record,
      same_id_refl h.record_id,
      apart,
    )

    module _ (s : LibraryShell Uuid) where
      copy_before :
          receive_all s lib (h ∷ copy ∷ t ∷ [])
          ≡ map (bury t) (entry_of copy suppressed ∷ entry_of h live ∷ lib)
      unfolding receive_all
      copy_before =
          ap (λ l. receive s (receive s l copy) t) (receive-by s first-inserted (s.inserts h lib))
          ∙ ap (λ l. receive s l t) (receive-by s copy-suppressed (s.suppresses copy _))
          ∙ receive-by s first-deleted (s.buries t _)

      copy_after :
          hlc_compare copy.hlc t.hlc ≡ Ordering.gt
          → receive_all s lib (t ∷ h ∷ copy ∷ []) ≡ entry_of copy live ∷ entry_of t deleted ∷ lib
      unfolding receive_all
      copy_after g =
          ap (λ l. receive s (receive s l h) copy)
            (receive-by s deletion-noted (s.notes_deleted t lib))
          ∙ ap (λ l. receive s l copy) (receive-by s first-skipped (s.skips h _))
          ∙ receive-by s (copy-inserted g) (s.inserts copy _)

module _ {Uuid : Type 0} ⦃u : UuidOps Uuid⦄ (s : LibraryShell Uuid) where
  -- What a library holds depends on the order of arrival. For a shell that does what the actions
  -- say, take a clip, a copy of it under another record, and a deletion of the first record to
  -- which the copy is later, with neither the records nor the content known before. Received in
  -- this order, no live entry with the content is left. Received with the deletion first, then the
  -- clip and the copy, there is one.
  pub receive_all-holds :
      (lib : Library Uuid) (h copy t : RecordHeader Uuid)
      → IsRecopied h copy t
      → IsNew h lib
      → IsNew copy lib
      → hlc_compare copy.hlc t.hlc ≡ Ordering.gt
      → (any (holds copy) (receive_all s lib (h ∷ copy ∷ t ∷ [])) ≡ false)
        × (any (holds copy) (receive_all s lib (t ∷ h ∷ copy ∷ [])) ≡ true)
  receive_all-holds lib h copy t r a b g = (
    ap (any (holds copy)) (copy_before lib h copy t r a b s) ∙ buried_lem lib h copy t r a b,
    ap (any (holds copy)) (copy_after lib h copy t r a b s g)
        ∙ ground (arith, eq_bytes_refl copy.sync_hash),
  )
