-- ===== src/Sync/Library/Content.antt =====
-- What a library holds of each content.
use clipy_si_core.Common.{
  ◌≡◌, ◌↔◌, ◌⊎◌, refl, sym, subst, Bool, true, false, ◌&&◌, some, List, [], ◌∷◌, Ordering, arith,
  any, inl, inr, Option-cases, eq_bytes_refl, keep, map, eq_bytes, All, OnSome,
}
use clipy_si_core.Common.Linear.{IsPreorder, eq_trans_right}
use clipy_si_core.Extern.Uuid.{UuidOps}
use clipy_si_core.Record.{Hlc, RecordHeader}
use clipy_si_core.Sync.{
  hlc_compare, MergeAction, apply_remote, apply_tombstone, record_tombstone_only, skip,
  skip_duplicate_content, merge_decide,
}
use clipy_si_core.Sync.Order.{hlc_compare-IsPreorder}
use clipy_si_core.Sync.Merge.{merge_decide-apply_iff}
use package.clipy_si_core.Sync.Library.{
  Status, live, deleted, suppressed, Entry, Library, is_live, entry_of, same_id, is_entry_of,
  is_live_duplicate, is_wiped_duplicate, later, newest, summary, bury, LibraryShell, decision,
  receive, receive_all,
}

module _ {Uuid : Type 0} ⦃u : UuidOps Uuid⦄ where
  -- Two entries of different records of which not both are live with the same content.
  abbrev pub IsApart : Entry Uuid → Entry Uuid → Type 0
  IsApart e f =
      (same_id f.id e.id ≡ false)
      × ((is_live e.status && is_live f.status && eq_bytes f.sync_hash e.sync_hash) ≡ false)

  abbrev pub IsTidy : Library Uuid → Type 0
  IsTidy [] = Unit {0}
  IsTidy (e ∷ es) = All (IsApart e) es × IsTidy es

  -- An entry of an unknown record is apart from the rest, if it is not live, or no live one has its
  -- content.
  new-IsApart :
      (h : RecordHeader Uuid) (status : Status) (lib : Library Uuid)
      → any (is_entry_of h) lib ≡ false
      → (is_live status && any (is_live_duplicate h) lib) ≡ false
      → All (IsApart (entry_of h status)) lib
  new-IsApart h status [] a b = tt
  new-IsApart h status (e ∷ es) a b =
      (ground arith, new-IsApart h status es (ground arith) (ground arith))

  bury-IsApart :
      (h : RecordHeader Uuid) (e : Entry Uuid) (es : Library Uuid)
      → All (IsApart e) es
      → All (IsApart (bury h e)) (map (bury h) es)
  bury-IsApart h e [] a = tt
  bury-IsApart h e (f ∷ es) a = (ground arith, bury-IsApart h e es a.1)

  bury-IsTidy :
      (h : RecordHeader Uuid) (lib : Library Uuid) → IsTidy lib → IsTidy (map (bury h) lib)
  bury-IsTidy h [] t = tt
  bury-IsTidy h (e ∷ es) t = (bury-IsApart h e es t.0, bury-IsTidy h es t.1)

  later_iff :
      (h a b : Hlc Uuid)
      → (hlc_compare h (later a (some b)) ≡ Ordering.gt)
        ↔ ((hlc_compare h a ≡ Ordering.gt) × (hlc_compare h b ≡ Ordering.gt))
  later_iff h a b =
      let l : IsPreorder (hlc_compare {Uuid = Uuid}) = hlc_compare-IsPreorder in
      ground (
        arith,
        l.flip h a,
        l.flip h b,
        l.flip a b,
        l.trans a b h,
        l.trans b a h,
        eq_trans_right l h a b,
      )

  -- Later than the newest is later than each.
  newest_iff :
      (h : Hlc Uuid) (es : Library Uuid)
      → OnSome (λ t. hlc_compare h t ≡ Ordering.gt) (newest es)
        ↔ All (λ e. hlc_compare h e.hlc ≡ Ordering.gt) es
  unfolding newest
  newest_iff h [] = ((λ x. tt), (λ x. tt))
  newest_iff h (e ∷ es) = elim (Option-cases (newest es)) [
    | inl n ↦ ground (arith, n, newest_iff h es)
    | inr (t, n) ↦ ground (arith, n, newest_iff h es, later_iff h e.hlc t)
  ]

  -- What stands in the way of inserting a record: an entry of its own, a live one with its content,
  -- or a deleted one with its content that is not earlier.
  abbrev pub Admits : RecordHeader Uuid → Entry Uuid → Type 0
  Admits h e =
      (same_id e.id h.record_id ≡ false)
      × (is_live_duplicate h e ≡ false)
      × (is_wiped_duplicate h e ≡ true → hlc_compare h.hlc e.hlc ≡ Ordering.gt)

  All-Admits :
      (h : RecordHeader Uuid) (lib : Library Uuid)
      → All (Admits h) lib ↔ (
          (any (is_entry_of h) lib ≡ false)
          × (any (is_live_duplicate h) lib ≡ false)
          × All (λ e. hlc_compare h.hlc e.hlc ≡ Ordering.gt) (keep (is_wiped_duplicate h) lib))
  All-Admits h [] = ((λ x. (refl, refl, tt)), (λ x. tt))
  All-Admits h (e ∷ es) = ground (arith, All-Admits h es)

  -- A received envelope is inserted exactly if it is live and no entry of the library is of the
  -- same record, is live with the same content, or is deleted with the same content and not
  -- earlier.
  pub decision-apply_iff :
      (lib : Library Uuid) (h : RecordHeader Uuid)
      → (decision lib h ≡ apply_remote) ↔ ((h.deleted ≡ false) × All (Admits h) lib)
  unfolding summary
  decision-apply_iff lib h = ground (
    arith,
    merge_decide-apply_iff (summary lib h) h.deleted h.hlc,
    All-Admits h lib,
    newest_iff h.hlc (keep (is_wiped_duplicate h) lib),
  )

  -- A live entry with this content.
  abbrev pub holds : RecordHeader Uuid → Entry Uuid → Bool
  holds h e = is_live e.status && eq_bytes e.sync_hash h.sync_hash

  duplicate_holds :
      (h : RecordHeader Uuid) (lib : Library Uuid)
      → any (is_live_duplicate h) lib ≡ true
      → any (holds h) lib ≡ true
  duplicate_holds h [] a = absurd (ground arith)
  duplicate_holds h (e ∷ es) a = ground (arith, duplicate_holds h es)

  -- The copies of this content that are deleted are all earlier.
  abbrev pub IsFresh : RecordHeader Uuid → Library Uuid → Type 0
  IsFresh h lib = All (λ e. hlc_compare h.hlc e.hlc ≡ Ordering.gt) (keep (is_wiped_duplicate h) lib)

module _ {Uuid : Type 0} ⦃u : UuidOps Uuid⦄ (s : LibraryShell Uuid) where
  execute-IsTidy :
      (a : MergeAction) (h : RecordHeader Uuid) (lib : Library Uuid)
      → decision lib h ≡ a
      → IsTidy lib
      → IsTidy (s.execute a h lib)
  unfolding merge_decide summary
  execute-IsTidy apply_remote h lib e t =
      subst IsTidy (sym (s.inserts h lib)) (new-IsApart h live lib (ground arith) (ground arith), t)
  execute-IsTidy apply_tombstone h lib e t =
      subst IsTidy (sym (s.buries h lib)) (bury-IsTidy h lib t)
  execute-IsTidy record_tombstone_only h lib e t =
      subst IsTidy (sym (s.notes_deleted h lib)) (new-IsApart h deleted lib (ground arith) refl, t)
  execute-IsTidy skip h lib e t = subst IsTidy (sym (s.skips h lib)) t
  execute-IsTidy skip_duplicate_content h lib e t =
      subst IsTidy (sym (s.suppresses h lib)) (new-IsApart h suppressed lib (ground arith) refl, t)

  -- For a shell that does what the actions say: from a library in which no record has two entries
  -- and no two live entries have the same content, receiving any envelopes in any order leads to
  -- such a library.
  pub receive_all-IsTidy :
      (lib : Library Uuid) (hs : List (RecordHeader Uuid))
      → IsTidy lib
      → IsTidy (receive_all s lib hs)
  unfolding receive_all receive
  receive_all-IsTidy lib [] t = t
  receive_all-IsTidy lib (h ∷ hs) t =
      receive_all-IsTidy (receive s lib h) hs (execute-IsTidy (decision lib h) h lib refl t)

  -- For a shell that does what the actions say: receiving a live envelope of an unknown record, the
  -- library has a live entry with its content afterwards exactly if it had one before, or every
  -- deleted entry with that content, of another record, is earlier than the envelope.
  pub receive-holds_iff :
      (lib : Library Uuid) (h : RecordHeader Uuid)
      → h.deleted ≡ false
      → any (is_entry_of h) lib ≡ false
      → (any (holds h) (receive s lib h) ≡ true) ↔ ((any (holds h) lib ≡ true) ⊎ IsFresh h lib)
  unfolding receive summary merge_decide
  receive-holds_iff lib h d a = ground (
    arith,
    s.inserts h lib,
    s.suppresses h lib,
    eq_bytes_refl h.sync_hash,
    duplicate_holds h lib,
    newest_iff h.hlc (keep (is_wiped_duplicate h) lib),
  )
