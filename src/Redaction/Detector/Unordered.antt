-- ===== src/Redaction/Detector/Unordered.antt =====
-- merge_non_overlapping up to the order in which the sources append their matches.
use clipy_si_core.Common.{
  ℕ, ◌≤◌, ◌≡◌, refl, sym, ap, ap₂, ◌∙◌, inl, inr, Ordering, Bool, true, false, Bool-cases, ◌||◌,
  leb, List, [], ◌∷◌, map, arith, All,
}
use clipy_si_core.Common.Permutations.{Perm-All, Perm-map}
use clipy_si_core.Redaction.{RawMatch, user_defined}
use clipy_si_core.Redaction.Detector.{
  order, insert, sort_by_order, keep_from, merge_non_overlapping,
}
use clipy_si_core.Redaction.Detector.Merge.{NotAfter, NotAfter-trans, order_flip, gt_or}
use mathlib.Core.List.{Permᴰ}

-- A match without the label of its kind.
abbrev pub unlabelled : RawMatch → RawMatch
unlabelled m = record m { kind = user_defined }

insert_gt :
    (m x : RawMatch) (xs : List RawMatch)
    → order m x ≡ Ordering.gt
    → insert m (x ∷ xs) ≡ x ∷ insert m xs
unfolding insert
insert_gt m x xs h = rw (h, insert) refl

insert_le : (m x : RawMatch) (xs : List RawMatch) → NotAfter m x → insert m (x ∷ xs) ≡ m ∷ x ∷ xs
unfolding insert
insert_le m x xs h = ground (arith, h)

unlabelled-insert :
    (m : RawMatch) (xs : List RawMatch)
    → map unlabelled (insert m xs) ≡ insert (unlabelled m) (map unlabelled xs)
unfolding insert
unlabelled-insert m [] = refl
unlabelled-insert m (x ∷ xs) = elim (gt_or (order m x)) [
  | inl e ↦
      ap (map unlabelled) (insert_gt m x xs e)
      ∙ ap (◌∷◌ (unlabelled x)) (unlabelled-insert m xs)
      ∙ sym (insert_gt (unlabelled m) (unlabelled x) (map unlabelled xs) e)
  | inr e ↦
      ap (map unlabelled) (insert_le m x xs e)
      ∙ sym (insert_le (unlabelled m) (unlabelled x) (map unlabelled xs) e)
]

unlabelled-sort :
    (ms : List RawMatch) → map unlabelled (sort_by_order ms) ≡ sort_by_order (map unlabelled ms)
unfolding sort_by_order
unlabelled-sort [] = refl
unlabelled-sort (m ∷ ms) =
    unlabelled-insert m (sort_by_order ms) ∙ ap (insert (unlabelled m)) (unlabelled-sort ms)

unlabelled-keep :
    (first : Bool) (e : ℕ) (ms : List RawMatch)
    → map unlabelled (keep_from first e ms) ≡ keep_from first e (map unlabelled ms)
unfolding keep_from
unlabelled-keep first e [] = refl
unlabelled-keep first e (m ∷ ms) = elim (Bool-cases (first || leb e m.start)) [
  | inl h ↦ rw (h, keep_from) (ap (◌∷◌ (unlabelled m)) (unlabelled-keep false m.end ms))
  | inr h ↦ rw (h, keep_from) (unlabelled-keep first e ms)
]

-- Labels have no part in what is kept.
unlabelled-merge :
    (ms : List RawMatch)
    → map unlabelled (merge_non_overlapping ms) ≡ merge_non_overlapping (map unlabelled ms)
unfolding merge_non_overlapping
unlabelled-merge ms =
    unlabelled-keep true 0 (sort_by_order ms) ∙ ap (keep_from true 0) (unlabelled-sort ms)

-- Without labels, and with ends not before starts, the comparison tells any two matches apart.
abbrev IsPlain : RawMatch → Type 0
IsPlain m = (m.kind ≡ user_defined) × (m.start ≤ m.end)

order_eq : (a b : RawMatch) → IsPlain a → IsPlain b → NotAfter a b → NotAfter b a → a ≡ b
order_eq a b p q h k = ground arith

-- `a` goes behind `x`, and `b` in front of it.
past :
    (a b x : RawMatch) (xs : List RawMatch)
    → order a x ≡ Ordering.gt
    → NotAfter b x
    → insert a (insert b (x ∷ xs)) ≡ insert b (insert a (x ∷ xs))
past a b x xs ax bx = elim (gt_or (order a b)) [
  | inl ab ↦
      ap (insert a) (insert_le b x xs bx)
      ∙ insert_gt a b (x ∷ xs) ab
      ∙ ap (◌∷◌ b) (insert_gt a x xs ax)
      ∙ sym (ap (insert b) (insert_gt a x xs ax) ∙ insert_le b x (insert a xs) bx)
  | inr ab ↦ absurd (NotAfter-trans a b x ab bx ax)
]

-- Both go in front of `x`.
both :
    (a b x : RawMatch) (xs : List RawMatch)
    → IsPlain a
    → IsPlain b
    → NotAfter a x
    → NotAfter b x
    → insert a (b ∷ x ∷ xs) ≡ insert b (a ∷ x ∷ xs)
both a b x xs p q ax bx = elim (gt_or (order a b)) [
  | inl e ↦
      insert_gt a b (x ∷ xs) e
      ∙ ap (◌∷◌ b) (insert_le a x xs ax)
      ∙ sym (insert_le b a (x ∷ xs) (λ g. ground (arith, e, g, order_flip a b)))
  | inr e ↦ elim (gt_or (order b a)) [
    | inl f ↦
        insert_le a b (x ∷ xs) e ∙ sym (insert_gt b a (x ∷ xs) f ∙ ap (◌∷◌ a) (insert_le b x xs bx))
    | inr f ↦ ap₂ (λ y z. insert y (z ∷ x ∷ xs)) (order_eq a b p q e f) (sym (order_eq a b p q e f))
  ]
]

insert_comm :
    (a b : RawMatch) (xs : List RawMatch)
    → IsPlain a
    → IsPlain b
    → insert a (insert b xs) ≡ insert b (insert a xs)
unfolding insert
insert_comm a b [] p q = elim (gt_or (order a b)) [
  | inl e ↦ insert_gt a b [] e ∙ sym (insert_le b a [] (λ g. ground (arith, e, g, order_flip a b)))
  | inr e ↦ elim (gt_or (order b a)) [
    | inl f ↦ insert_le a b [] e ∙ sym (insert_gt b a [] f)
    | inr f ↦
        ap₂ (λ x y. insert x (insert y [])) (order_eq a b p q e f) (sym (order_eq a b p q e f))
  ]
]
insert_comm a b (x ∷ xs) p q = elim (gt_or (order a x)) [
  | inl ax ↦ elim (gt_or (order b x)) [
    | inl bx ↦
        ap (insert a) (insert_gt b x xs bx)
        ∙ insert_gt a x (insert b xs) ax
        ∙ ap (◌∷◌ x) (insert_comm a b xs p q)
        ∙ sym (ap (insert b) (insert_gt a x xs ax) ∙ insert_gt b x (insert a xs) bx)
    | inr bx ↦ past a b x xs ax bx
  ]
  | inr ax ↦ elim (gt_or (order b x)) [
    | inl bx ↦ sym (past b a x xs bx ax)
    | inr bx ↦
        ap (insert a) (insert_le b x xs bx)
        ∙ both a b x xs p q ax bx
        ∙ sym (ap (insert b) (insert_le a x xs ax))
  ]
]

Perm-sort :
    {xs ys : List RawMatch} → Permᴰ xs ys → All IsPlain xs → sort_by_order xs ≡ sort_by_order ys
unfolding sort_by_order
Perm-sort Permᴰ.nil h = refl
Perm-sort (Permᴰ.cons e d) h = ap₂ insert e (Perm-sort d h.1)
Perm-sort (Permᴰ.swap {a} {b} {l = l} e f) h =
    insert_comm a b (sort_by_order l) h.0 h.1.0
    ∙ ap₂ (λ x y. insert x (insert y (sort_by_order l))) f e
Perm-sort (Permᴰ.trans d d') h = Perm-sort d h ∙ Perm-sort d' (Perm-All IsPlain d h)

abbrev pub IsForward : RawMatch → Type 0
IsForward m = m.start ≤ m.end

All-IsPlain : (ms : List RawMatch) → All IsForward ms → All IsPlain (map unlabelled ms)
All-IsPlain [] h = tt
All-IsPlain (m ∷ ms) h = ((refl, h.0), All-IsPlain ms h.1)

-- The same raw matches in another order, none with its end before its start, are merged to the same
-- spans with the same confidences in the same order, labels left aside.
pub merge_non_overlapping-Perm :
    {xs ys : List RawMatch}
    → Permᴰ xs ys
    → All IsForward xs
    → map unlabelled (merge_non_overlapping xs) ≡ map unlabelled (merge_non_overlapping ys)
unfolding merge_non_overlapping
merge_non_overlapping-Perm {xs} {ys} d h =
    unlabelled-merge xs
    ∙ ap (keep_from true 0) (Perm-sort (Perm-map unlabelled d) (All-IsPlain xs h))
    ∙ sym (unlabelled-merge ys)
