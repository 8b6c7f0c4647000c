-- ===== src/Common/Permutations.antt =====
-- Lists in another order.
use mathlib.Core.Bool.{Bool, ◌||◌}
use mathlib.Core.List.{List, [], ◌∷◌, ◌++◌, map, append_assoc, Permᴰ}
use mathlib.Core.List.Permᴰ as Perm
use mathlib.Core.Path.{◌≡◌, refl, sym, ap, ap₂, subst, ◌∙◌}
use native.Mathlib.Omega.{arith}
use package.clipy_si_core.Common.Lists.{All, any}

or_swap : (x y z : Bool) → (x || (y || z)) ≡ (y || (x || z))
or_swap x y z = ground arith

module _ {ℓ} {A : Type ℓ} where
  pub Perm-eq : {xs ys : List A} → xs ≡ ys → Permᴰ xs ys
  Perm-eq {xs} e = subst (Permᴰ xs) e (Perm.refl xs)

  -- Two blocks change places.
  pub Perm-blocks : (xs ys zs : List A) → Permᴰ (xs ++ (ys ++ zs)) (ys ++ (xs ++ zs))
  Perm-blocks xs ys zs = Permᴰ.trans (Perm-eq (sym (append_assoc xs ys zs))) (
      Permᴰ.trans (Perm.append_right zs (Perm.append_comm xs ys)) (Perm-eq (append_assoc ys xs zs)))

  pub Perm-All {κ} : (P : A → Type κ) {xs ys : List A} → Permᴰ xs ys → All P xs → All P ys
  Perm-All P Permᴰ.nil h = h
  Perm-All P (Permᴰ.cons e d) h = (subst P e h.0, Perm-All P d h.1)
  Perm-All P (Permᴰ.swap e f) h = (subst P f h.1.0, (subst P e h.0, h.1.1))
  Perm-All P (Permᴰ.trans d d') h = Perm-All P d' (Perm-All P d h)

  pub Perm-map {κ} :
      {B : Type κ} (f : A → B) {xs ys : List A} → Permᴰ xs ys → Permᴰ (map f xs) (map f ys)
  Perm-map f Permᴰ.nil = Permᴰ.nil
  Perm-map f (Permᴰ.cons e d) = Permᴰ.cons (ap f e) (Perm-map f d)
  Perm-map f (Permᴰ.swap e g) = Permᴰ.swap (ap f e) (ap f g)
  Perm-map f (Permᴰ.trans d d') = Permᴰ.trans (Perm-map f d) (Perm-map f d')

  pub Perm-any : (p : A → Bool) {xs ys : List A} → Permᴰ xs ys → any p xs ≡ any p ys
  Perm-any p Permᴰ.nil = refl
  Perm-any p (Permᴰ.cons e d) = ap₂ (λ x y. p x || y) e (Perm-any p d)
  Perm-any p (Permᴰ.swap {a} {b} {l = l} e f) =
      or_swap (p a) (p b) (any p l) ∙ ap₂ (λ x y. p x || (p y || any p l)) f e
  Perm-any p (Permᴰ.trans d d') = Perm-any p d ∙ Perm-any p d'

  pub any-map {κ} :
      {B : Type κ} (p : B → Bool) (f : A → B) (xs : List A)
      → any p (map f xs) ≡ any (λ x. p (f x)) xs
  any-map p f [] = refl
  any-map p f (x ∷ xs) = ap (λ b. p (f x) || b) (any-map p f xs)
