-- ===== src/Redaction/Detector/Merge.antt =====
-- merge_non_overlapping: what is kept, and why the rest is not.
use clipy_si_core.Common.{
  ℕ, ◌-◌, ◌≤◌, ◌<◌, ◌≡◌, ◌≢◌, refl, sym, subst, ◌⊎◌, inl, inr, Ordering, Bool, true, false, List,
  [], ◌∷◌, arith, All, leb, Bool-cases,
}
use clipy_si_core.Common.Linear.{reverse}
use clipy_si_core.Redaction.{RawMatch, high, medium}
use clipy_si_core.Redaction.Detector.{
  order, insert, sort_by_order, keep_from, merge_non_overlapping,
}

abbrev pub NotAfter : RawMatch → RawMatch → Type 0
NotAfter a b = order a b ≢ Ordering.gt

pub order_flip : (a b : RawMatch) → order b a ≡ reverse (order a b)
order_flip a b = ground arith

pub NotAfter-trans : (a b c : RawMatch) → NotAfter a b → NotAfter b c → NotAfter a c
NotAfter-trans a b c p q = ground arith

order_start : (a b : RawMatch) → NotAfter a b → a.start ≤ b.start
order_start a b h = ground arith

pub gt_or : (o : Ordering) → (o ≡ Ordering.gt) ⊎ (o ≢ Ordering.gt)
gt_or o = ground arith

-- Each match not after the next.
abbrev Ascends : RawMatch → List RawMatch → Type 0
Ascends m [] = Unit
Ascends m (x ∷ xs) = NotAfter m x × Ascends x xs

abbrev pub Sorted : List RawMatch → Type 0
Sorted [] = Unit
Sorted (m ∷ ms) = Ascends m ms

insert-Ascends :
    (k m : RawMatch) (xs : List RawMatch) → NotAfter k m → Ascends k xs → Ascends k (insert m xs)
unfolding insert
insert-Ascends k m [] h a = (h, a)
insert-Ascends k m (x ∷ xs) h a = elim (gt_or (order m x)) [
  | inl e ↦
      rw (e, Ascends) (a.0, insert-Ascends x m xs (λ g. ground (arith, e, g, order_flip m x)) a.1)
  | inr n ↦ ground (arith, n, h, a)
]

insert-Sorted : (m : RawMatch) (xs : List RawMatch) → Sorted xs → Sorted (insert m xs)
unfolding insert
insert-Sorted m [] h = ground arith
insert-Sorted m (x ∷ xs) h = elim (gt_or (order m x)) [
  | inl e ↦ rw (e, Sorted) (insert-Ascends x m xs (λ g. ground (arith, e, g, order_flip m x)) h)
  | inr n ↦ ground (arith, n, h)
]

-- A predicate holds of what is sorted and kept if it holds of the matches.
module _ (P : RawMatch → Type 0) where
  insert-All : (m : RawMatch) (xs : List RawMatch) → P m → All P xs → All P (insert m xs)
  unfolding insert
  insert-All m [] p h = (p, h)
  insert-All m (x ∷ xs) p h = ground (arith, insert-All m xs p h.1)

  sort-All : (ms : List RawMatch) → All P ms → All P (sort_by_order ms)
  unfolding sort_by_order
  sort-All [] h = h
  sort-All (m ∷ ms) h = insert-All m (sort_by_order ms) h.0 (sort-All ms h.1)

  keep_from-All : (b : Bool) (e : ℕ) (ms : List RawMatch) → All P ms → All P (keep_from b e ms)
  unfolding keep_from
  keep_from-All b e [] h = h
  keep_from-All b e (m ∷ ms) h =
      ground (arith, keep_from-All b e ms h.1, keep_from-All false m.end ms h.1)

  pub merge_non_overlapping-All : (ms : List RawMatch) → All P ms → All P (merge_non_overlapping ms)
  unfolding merge_non_overlapping
  merge_non_overlapping-All ms h = keep_from-All true 0 (sort_by_order ms) (sort-All ms h)

-- Each match starts where the one before it ends, or later.
abbrev pub Disjoint : ℕ → List RawMatch → Type 0
Disjoint last_end [] = Unit
Disjoint last_end (m ∷ ms) = (last_end ≤ m.start) × Disjoint m.end ms

keep_from-Disjoint : (e : ℕ) (ms : List RawMatch) → Disjoint e (keep_from false e ms)
unfolding keep_from
keep_from-Disjoint e [] = ground arith
keep_from-Disjoint e (m ∷ ms) = ground (arith, keep_from-Disjoint e ms, keep_from-Disjoint m.end ms)

first-Disjoint : (ms : List RawMatch) → Disjoint 0 (keep_from true 0 ms)
unfolding keep_from
first-Disjoint [] = ground arith
first-Disjoint (m ∷ ms) = (omega arith, keep_from-Disjoint m.end ms)

sort-Sorted : (ms : List RawMatch) → Sorted (sort_by_order ms)
unfolding sort_by_order
sort-Sorted [] = ground arith
sort-Sorted (m ∷ ms) = insert-Sorted m (sort_by_order ms) (sort-Sorted ms)

-- Each kept match starts where the kept match before it ends, or later.
pub merge_non_overlapping-Disjoint :
    (raws : List RawMatch) → Disjoint 0 (merge_non_overlapping raws)
unfolding merge_non_overlapping
merge_non_overlapping-Disjoint raws = first-Disjoint (sort_by_order raws)

-- Some match of a list.
abbrev pub Some : (RawMatch → Type 0) → List RawMatch → Type 0
Some P [] = ⊥
Some P (m ∷ ms) = P m ⊎ Some P ms

-- What it takes for `k` to be kept in place of `r`: an earlier start, or at the same start a higher
-- confidence, or with the same confidence a span that is no shorter.
abbrev pub Outranks : RawMatch → RawMatch → Type 0
Outranks k r =
    (k.start < r.start)
    ⊎ ((k.start ≡ r.start)
        × (((k.confidence ≡ high) × (r.confidence ≡ medium))
            ⊎ ((k.confidence ≡ r.confidence) × (r.end - r.start ≤ k.end - k.start))))

NotAfter-Outranks : (k r : RawMatch) → NotAfter k r → Outranks k r
NotAfter-Outranks k r h = ground arith

-- A match is kept, or starts inside a kept one that outranks it.
abbrev pub Covers : RawMatch → RawMatch → Type 0
Covers r k = (k ≡ r) ⊎ (Outranks k r × (k.start ≤ r.start) × (r.start < k.end))

abbrev pub Covered : List RawMatch → RawMatch → Type 0
Covered kept r = Some (Covers r) kept

weaken :
    (k : RawMatch) (kept ms : List RawMatch) → All (Covered kept) ms → All (Covered (k ∷ kept)) ms
weaken k kept [] h = h
weaken k kept (m ∷ ms) h = (inr h.0, weaken k kept ms h.1)

skip-Ascends : (k m : RawMatch) (ms : List RawMatch) → NotAfter k m → Ascends m ms → Ascends k ms
skip-Ascends k m [] h a = a
skip-Ascends k m (x ∷ xs) h a = (NotAfter-trans k m x h a.0, a.1)

-- What follows a kept match in the order is kept, or starts inside a kept one.
rest-Covered :
    (k : RawMatch) (ms : List RawMatch)
    → Ascends k ms
    → All (Covered (k ∷ keep_from false k.end ms)) ms
unfolding keep_from
rest-Covered k [] h = h
rest-Covered k (m ∷ ms) h = elim (Bool-cases (leb k.end m.start)) [
  | inl e ↦
      subst (λ kept. All (Covered (k ∷ kept)) (m ∷ ms)) (sym (kept-next e))
        (inr (inl (inl refl)), weaken k (m ∷ keep_from false m.end ms) ms (rest-Covered m ms h.1))
  | inr e ↦
      subst (λ kept. All (Covered (k ∷ kept)) (m ∷ ms)) (sym (kept-skip e))
        (
          inl (inr (NotAfter-Outranks k m h.0, order_start k m h.0, ground (arith, e))),
          rest-Covered k ms (skip-Ascends k m ms h.0 h.1),
        )
]
  where
    kept-next :
        leb k.end m.start ≡ true → keep_from false k.end (m ∷ ms) ≡ m ∷ keep_from false m.end ms
    kept-next e = rw (e, keep_from) refl

    kept-skip :
        leb k.end m.start ≡ false → keep_from false k.end (m ∷ ms) ≡ keep_from false k.end ms
    kept-skip e = rw (e, keep_from) refl

Sorted-Covered : (ms : List RawMatch) → Sorted ms → All (Covered (keep_from true 0 ms)) ms
unfolding keep_from
Sorted-Covered [] h = h
Sorted-Covered (m ∷ ms) h = (inl (inl refl), rest-Covered m ms h)

All-insert :
    (P : RawMatch → Type 0) (m : RawMatch) (xs : List RawMatch)
    → All P (insert m xs)
    → P m × All P xs
unfolding insert
All-insert P m [] h = h
All-insert P m (x ∷ xs) h = elim (gt_or (order m x)) [
  | inl e ↦
      let eq : insert m (x ∷ xs) ≡ x ∷ insert m xs = rw (e, insert) refl in
      let h' = subst (All P) eq h in let (p, q) = All-insert P m xs h'.1 in (p, (h'.0, q))
  | inr n ↦ let eq : insert m (x ∷ xs) ≡ m ∷ x ∷ xs = ground (arith, n) in subst (All P) eq h
]

All-sort : (P : RawMatch → Type 0) (ms : List RawMatch) → All P (sort_by_order ms) → All P ms
unfolding sort_by_order
All-sort P [] h = h
All-sort P (m ∷ ms) h = let (p, q) = All-insert P m (sort_by_order ms) h in (p, All-sort P ms q)

merge_non_overlapping-Covered :
    (raws : List RawMatch) → All (Covered (merge_non_overlapping raws)) raws
unfolding merge_non_overlapping
merge_non_overlapping-Covered raws =
    All-sort (Covered (keep_from true 0 (sort_by_order raws))) raws
      (Sorted-Covered (sort_by_order raws) (sort-Sorted raws))

members : (ms : List RawMatch) → All (λ m. Some (λ r. m ≡ r) ms) ms
members [] = tt
members (m ∷ ms) = (inl refl, weaken-members m ms ms (members ms))
  where
    weaken-members :
        (x : RawMatch) (xs ms : List RawMatch)
        → All (λ m. Some (λ r. m ≡ r) xs) ms
        → All (λ m. Some (λ r. m ≡ r) (x ∷ xs)) ms
    weaken-members x xs [] h = tt
    weaken-members x xs (m ∷ ms) h = (inr h.0, weaken-members x xs ms h.1)

-- What is kept of the raw matches: only raw matches, each starting where the one before it ends or
-- later; and every raw match is kept, or starts inside a kept one that starts earlier, or starts
-- with it and has the higher confidence, or the same confidence and a span that is no shorter.
pub merge_non_overlapping_lem :
    (raws : List RawMatch)
    → All (λ k. Some (λ r. k ≡ r) raws) (merge_non_overlapping raws)
      × Disjoint 0 (merge_non_overlapping raws)
      × All (Covered (merge_non_overlapping raws)) raws
merge_non_overlapping_lem raws = (
  merge_non_overlapping-All (λ k. Some (λ r. k ≡ r) raws) raws (members raws),
  merge_non_overlapping-Disjoint raws,
  merge_non_overlapping-Covered raws,
)

-- Nothing is kept only of nothing.
pub merge_non_overlapping-nil : (raws : List RawMatch) → merge_non_overlapping raws ≡ [] → raws ≡ []
merge_non_overlapping-nil [] h = refl
merge_non_overlapping-nil (m ∷ ms) h =
    absurd
      (subst (λ kept. All (Covered kept) (m ∷ ms)) h (merge_non_overlapping-Covered (m ∷ ms))).0
