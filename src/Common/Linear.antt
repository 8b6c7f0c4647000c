-- ===== src/Common/Linear.antt =====
-- Comparison functions (`core::cmp::Ord`) that are total orders, up to a key or strict,
-- and how `then` combines them.
use Prim.Native.Nat.{ℕ, ◌<◌, compare, Ordering}
use mathlib.Core.Path.{◌≡◌, refl, ap}
use mathlib.Core.Logic.{◌↔◌, ◌⊎◌}
use mathlib.Core.List.{List, [], ◌∷◌}
use native.Mathlib.Omega.{arith}

-- `Ordering::reverse`.
abbrev pub reverse : Ordering → Ordering
reverse Ordering.lt = Ordering.gt
reverse Ordering.eq = Ordering.eq
reverse Ordering.gt = Ordering.lt

-- `Ordering::then`.
infixl 60 ◌then◌
abbrev pub ◌then◌ : Ordering → Ordering → Ordering
Ordering.lt then o = Ordering.lt
Ordering.eq then o = o
Ordering.gt then o = Ordering.gt

-- What `Ord` promises of `cmp`, up to a key: values that compare as equal may differ.
pub record IsPreorder {ℓ} {A : Type ℓ} (cmp : A → A → Ordering) : Type ℓ where
  pub cmp_refl : (a : A) → cmp a a ≡ Ordering.eq
  pub flip : (a b : A) → cmp b a ≡ reverse (cmp a b)
  pub trans : (a b c : A) → cmp a b ≡ Ordering.lt → cmp b c ≡ Ordering.lt → cmp a c ≡ Ordering.lt
  pub eq_trans : (a b c : A) → cmp a b ≡ Ordering.eq → cmp a c ≡ cmp b c

-- A linear order: only equal values compare as equal.
pub record IsLinear {ℓ} {A : Type ℓ} (cmp : A → A → Ordering) : Type ℓ where
  pub preorder : IsPreorder cmp
  pub antisym : (a b : A) → cmp a b ≡ Ordering.eq → a ≡ b

pub compare-IsPreorder : IsPreorder compare
compare-IsPreorder = record {
  cmp_refl = λ a. ground arith;
  flip = λ a b. ground arith;
  trans = λ a b c h k. ground arith;
  eq_trans = λ a b c h. ground arith;
}

-- The lexicographic order of slices.
abbrev pub cmp_bytes : List ℕ → List ℕ → Ordering
cmp_bytes [] [] = Ordering.eq
cmp_bytes [] (y ∷ ys) = Ordering.lt
cmp_bytes (x ∷ xs) [] = Ordering.gt
cmp_bytes (x ∷ xs) (y ∷ ys) = compare x y then cmp_bytes xs ys

module _ {ℓ} {A : Type ℓ} {cmp : A → A → Ordering} (l : IsPreorder cmp) where
  pub eq_flip : (a b : A) → cmp a b ≡ Ordering.eq → cmp b a ≡ Ordering.eq
  eq_flip a b h = ground (arith, l.flip a b)

  pub eq_trans_right : (a b c : A) → cmp b c ≡ Ordering.eq → cmp a c ≡ cmp a b
  eq_trans_right a b c h = ground (arith, l.flip c a, l.flip b a, l.eq_trans c b a (eq_flip b c h))

-- `then` of two such comparisons is one.
pub then-IsPreorder {ℓ} :
    {A : Type ℓ} {f g : A → A → Ordering}
    → IsPreorder f
    → IsPreorder g
    → IsPreorder (λ a b. f a b then g a b)
then-IsPreorder l m = record {
  cmp_refl = λ a. ground (arith, l.cmp_refl a, m.cmp_refl a);
  flip = λ a b. ground (arith, l.flip a b, m.flip a b);
  trans = λ a b c h k.
      ground (arith, l.trans a b c, m.trans a b c, l.eq_trans a b c, eq_trans_right l a b c);
  eq_trans = λ a b c h. ground (arith, l.eq_trans a b c, m.eq_trans a b c);
}

-- An order by a key.
pub key-IsPreorder {ℓ κ} :
    {A : Type ℓ} {B : Type κ} {f : B → B → Ordering} (k : A → B)
    → IsPreorder f
    → IsPreorder (λ a b. f (k a) (k b))
key-IsPreorder k l = record {
  cmp_refl = λ a. l.cmp_refl (k a);
  flip = λ a b. l.flip (k a) (k b);
  trans = λ a b c. l.trans (k a) (k b) (k c);
  eq_trans = λ a b c. l.eq_trans (k a) (k b) (k c);
}

cmp_bytes_refl : (xs : List ℕ) → cmp_bytes xs xs ≡ Ordering.eq
cmp_bytes_refl [] = refl
cmp_bytes_refl (x ∷ xs) = ground (arith, cmp_bytes_refl xs)

cmp_bytes_flip : (xs ys : List ℕ) → cmp_bytes ys xs ≡ reverse (cmp_bytes xs ys)
cmp_bytes_flip [] [] = refl
cmp_bytes_flip [] (y ∷ ys) = refl
cmp_bytes_flip (x ∷ xs) [] = refl
cmp_bytes_flip (x ∷ xs) (y ∷ ys) = ground (arith, cmp_bytes_flip xs ys)

pub eq_of_cmp_bytes : (xs ys : List ℕ) → cmp_bytes xs ys ≡ Ordering.eq → xs ≡ ys
eq_of_cmp_bytes [] [] h = refl
eq_of_cmp_bytes [] (y ∷ ys) h = cc
eq_of_cmp_bytes (x ∷ xs) [] h = cc
eq_of_cmp_bytes (x ∷ xs) (y ∷ ys) h = ground (arith, eq_of_cmp_bytes xs ys)

cmp_bytes_trans :
    (xs ys zs : List ℕ)
    → cmp_bytes xs ys ≡ Ordering.lt
    → cmp_bytes ys zs ≡ Ordering.lt
    → cmp_bytes xs zs ≡ Ordering.lt
cmp_bytes_trans [] [] zs h k = cc
cmp_bytes_trans [] (y ∷ ys) [] h k = cc
cmp_bytes_trans [] (y ∷ ys) (z ∷ zs) h k = refl
cmp_bytes_trans (x ∷ xs) [] zs h k = cc
cmp_bytes_trans (x ∷ xs) (y ∷ ys) [] h k = cc
cmp_bytes_trans (x ∷ xs) (y ∷ ys) (z ∷ zs) h k = ground (arith, cmp_bytes_trans xs ys zs)

pub cmp_bytes-IsPreorder : IsPreorder cmp_bytes
cmp_bytes-IsPreorder = record {
  cmp_refl = cmp_bytes_refl;
  flip = cmp_bytes_flip;
  trans = cmp_bytes_trans;
  eq_trans = λ a b c h. ap (λ xs. cmp_bytes xs c) (eq_of_cmp_bytes a b h);
}

-- The lexicographic order: at the first difference the smaller byte, or the end of the shorter.
abbrev pub Precedes : List ℕ → List ℕ → Type 0
Precedes xs [] = ⊥
Precedes [] (y ∷ ys) = Unit {0}
Precedes (x ∷ xs) (y ∷ ys) = (x < y) ⊎ ((x ≡ y) × Precedes xs ys)

pub cmp_bytes_iff : (xs ys : List ℕ) → (cmp_bytes xs ys ≡ Ordering.lt) ↔ Precedes xs ys
cmp_bytes_iff [] [] = ((λ h. cc), (λ h. absurd h))
cmp_bytes_iff [] (y ∷ ys) = ((λ h. tt), (λ h. refl))
cmp_bytes_iff (x ∷ xs) [] = ((λ h. cc), (λ h. absurd h))
cmp_bytes_iff (x ∷ xs) (y ∷ ys) = ground (arith, cmp_bytes_iff xs ys)
