-- ===== src/Sync/Merge.antt =====
-- merge_decide: which envelopes are applied, and what a stream of deliveries does to the marks of
-- one record. The shell that carries a decision out is a parameter: `Shell` states what the
-- comments on MergeAction and LocalState ask of it.
use clipy_si_core.Common.{
  ◌≡◌, ◌≢◌, ◌↔◌, Ordering, Bool, true, false, ◌||◌, Option, List, [], ◌∷◌, arith, All, any, map,
  refl, sym, ap, ◌∙◌, OnSome,
}
use clipy_si_core.Common.Permutations.{Perm-any, any-map}
use mathlib.Core.List.{Permᴰ}
use clipy_si_core.Extern.Uuid.{UuidOps}
use clipy_si_core.Record.{Hlc}
use clipy_si_core.Sync.{
  hlc_compare, LocalState, MergeAction, apply_remote, apply_tombstone, record_tombstone_only, skip,
  skip_duplicate_content, merge_decide,
}

module _ {Uuid : Type 0} ⦃u : UuidOps Uuid⦄ where
  -- An envelope is inserted exactly when it is live, its record is unknown, no live clip has its
  -- content, and it is later than the newest deletion of that content, if there is one.
  pub merge_decide-apply_iff :
      (loc : LocalState Uuid) (deleted : Bool) (h : Hlc Uuid)
      → (merge_decide loc deleted h ≡ apply_remote) ↔ (
          (loc.applied ≡ false)
          × (deleted ≡ false)
          × (loc.live_duplicate_sync_hash ≡ false)
          × OnSome (λ t. hlc_compare h t ≡ Ordering.gt) loc.tombstoned_duplicate_hlc)
  unfolding merge_decide
  merge_decide-apply_iff loc deleted h = ground arith

  -- A deletion is carried out exactly when it is the first of an applied record, and only noted
  -- exactly when the record is unknown; in both cases whatever else the state says.
  pub merge_decide-delete_iff :
      (loc : LocalState Uuid) (deleted : Bool) (h : Hlc Uuid)
      → ((merge_decide loc deleted h ≡ apply_tombstone)
          ↔ ((loc.applied ≡ true) × (deleted ≡ true) × (loc.applied_deleted ≡ false)))
        × ((merge_decide loc deleted h ≡ record_tombstone_only)
            ↔ ((loc.applied ≡ false) × (deleted ≡ true)))
  unfolding merge_decide
  merge_decide-delete_iff loc deleted h = ground arith

-- The row of `syncApplied` for one record.
pub record Marks : Type 0 where
  pub applied : Bool
  pub applied_deleted : Bool

-- One incoming envelope for the record, and what the lookups by content say at that moment.
pub record Delivery (Uuid : Type 0) : Type 0 where
  pub deleted : Bool
  pub hlc : Hlc Uuid
  pub live_duplicate : Bool
  pub tombstoned_duplicate : Option (Hlc Uuid)

abbrev pub deletes : MergeAction → Bool
deletes apply_remote = false
deletes apply_tombstone = true
deletes record_tombstone_only = true
deletes skip = false
deletes skip_duplicate_content = false

-- What the shell is told to do: every action marks the record applied, and the two deletions mark
-- it deleted as well.
pub record Shell : Type 0 where
  pub execute : MergeAction → Marks → Marks
  pub marks_deleted :
      (a : MergeAction) (m : Marks)
      → deletes a ≡ true
      → execute a m ≡ record { applied = true; applied_deleted = true }
  pub marks_applied :
      (a : MergeAction) (m : Marks)
      → deletes a ≡ false
      → execute a m ≡ record { applied = true; applied_deleted = m.applied_deleted }

-- A deleted record is an applied one.
abbrev pub IsCoherent : Marks → Type 0
IsCoherent m = m.applied_deleted ≡ true → m.applied ≡ true

module _ {Uuid : Type 0} ⦃u : UuidOps Uuid⦄ (s : Shell) where
  abbrev pub decide_at : Marks → Delivery Uuid → MergeAction
  decide_at m d =
      merge_decide
        (record {
          applied = m.applied;
          applied_deleted = m.applied_deleted;
          live_duplicate_sync_hash = d.live_duplicate;
          tombstoned_duplicate_hlc = d.tombstoned_duplicate;
        })
        d.deleted d.hlc

  unfoldable pub deliver : Marks → Delivery Uuid → Marks
  deliver m d = s.execute (decide_at m d) m

  pub deliver_all : Marks → List (Delivery Uuid) → Marks
  deliver_all m [] = m
  deliver_all m (d ∷ ds) = deliver_all (deliver m d) ds

  -- The actions that the shell is given over a stream of deliveries.
  pub decisions : Marks → List (Delivery Uuid) → List MergeAction
  decisions m [] = []
  decisions m (d ∷ ds) = decide_at m d ∷ decisions (deliver m d) ds

  pub deliver_lem :
      (m : Marks) (d : Delivery Uuid)
      → IsCoherent m
      → deliver m d ≡ record { applied = true; applied_deleted = m.applied_deleted || d.deleted }
  unfolding deliver merge_decide
  deliver_lem m d c =
      ground (arith, s.marks_deleted (decide_at m d) m, s.marks_applied (decide_at m d) m)

  -- For a shell that marks as the actions say, and marks that are not deleted without being
  -- applied: after any deliveries, at least one, the record is marked applied, and marked deleted
  -- exactly if it was before or one of them was a tombstone.
  pub deliver_all-marks :
      (m : Marks) (d : Delivery Uuid) (ds : List (Delivery Uuid))
      → IsCoherent m
      → deliver_all m (d ∷ ds) ≡ record {
        applied = true;
        applied_deleted = m.applied_deleted || any (λ e. e.deleted) (d ∷ ds);
      }
  unfolding deliver_all
  deliver_all-marks m d [] c = ground (arith, deliver_lem m d c)
  deliver_all-marks m d (e ∷ ds) c =
      ground (arith, deliver_lem m d c, deliver_all-marks (deliver m d) e ds)

  -- The envelope that was delivered.
  abbrev pub envelope_of : Delivery Uuid → Bool × Hlc Uuid
  envelope_of d = (d.deleted, d.hlc)

  any-deleted :
      (ds es : List (Delivery Uuid))
      → Permᴰ (map envelope_of ds) (map envelope_of es)
      → any (λ d. d.deleted) ds ≡ any (λ d. d.deleted) es
  any-deleted ds es p =
      sym (any-map (λ v. v.0) envelope_of ds)
      ∙ Perm-any (λ v. v.0) p
      ∙ any-map (λ v. v.0) envelope_of es

  -- For a shell that marks as the actions say, and marks that are not deleted without being
  -- applied: two devices that start with the same marks of a record and are delivered the same
  -- envelopes, each in an order of its own and with other clips around, end with the same marks.
  pub deliver_all-Perm :
      (m : Marks) (ds es : List (Delivery Uuid))
      → IsCoherent m
      → Permᴰ (map envelope_of ds) (map envelope_of es)
      → deliver_all m ds ≡ deliver_all m es
  deliver_all-Perm m [] [] c p = refl
  deliver_all-Perm m [] (e ∷ es) c p = absurd (let f = Perm-any (λ v. true) p in cc)
  deliver_all-Perm m (d ∷ ds) [] c p = absurd (let f = Perm-any (λ v. true) p in cc)
  deliver_all-Perm m (d ∷ ds) (e ∷ es) c p =
      deliver_all-marks m d ds c
      ∙ ap (λ b. record { applied = true; applied_deleted = m.applied_deleted || b })
          (any-deleted (d ∷ ds) (e ∷ es) p)
      ∙ sym (deliver_all-marks m e es c)

  applied_stays :
      (m : Marks) (ds : List (Delivery Uuid))
      → m.applied ≡ true
      → All (λ a. a ≢ apply_remote) (decisions m ds)
  unfolding decisions
  applied_stays m [] h = tt
  applied_stays m (d ∷ ds) h = (
    unfold merge_decide in ground arith,
    applied_stays (deliver m d) ds (ap (λ k. k.applied) (deliver_lem m d (λ _. h))),
  )

  -- For a shell that marks as the actions say, and marks that are not deleted without being
  -- applied: a record is inserted at most once, since whatever is delivered after a first envelope,
  -- none of the later decisions is an insert.
  pub decisions-insert_once :
      (m : Marks) (d : Delivery Uuid) (ds : List (Delivery Uuid))
      → IsCoherent m
      → All (λ a. a ≢ apply_remote) (decisions (deliver m d) ds)
  decisions-insert_once m d ds c =
      applied_stays (deliver m d) ds (ap (λ k. k.applied) (deliver_lem m d c))

  deleted_stays :
      (m : Marks) (ds : List (Delivery Uuid))
      → m.applied ≡ true
      → m.applied_deleted ≡ true
      → All (λ a. a ≡ skip) (decisions m ds)
  unfolding decisions
  deleted_stays m [] h k = tt
  deleted_stays m (d ∷ ds) h k = (
    unfold merge_decide in ground arith,
    deleted_stays (deliver m d) ds (ap (λ k. k.applied) (deliver_lem m d (λ _. h)))
        (ground (arith, deliver_lem m d (λ _. h))),
  )

  -- For a shell that marks as the actions say, and marks that are not deleted without being
  -- applied: once a tombstone has been delivered, known or unknown record, every later envelope of
  -- the record is skipped.
  pub decisions-after_tombstone :
      (m : Marks) (d : Delivery Uuid) (ds : List (Delivery Uuid))
      → IsCoherent m
      → d.deleted ≡ true
      → All (λ a. a ≡ skip) (decisions (deliver m d) ds)
  decisions-after_tombstone m d ds c h =
      deleted_stays (deliver m d) ds (ap (λ k. k.applied) (deliver_lem m d c))
        (ground (arith, deliver_lem m d c))
