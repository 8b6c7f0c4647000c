-- ===== src/Common/Result.antt =====
-- Rust's `Result`, its `?` as a bind, and the adapters that the crates use.
use mathlib.Core.Path.{◌≡◌, refl}
use mathlib.Core.Bool.{Bool, false}
use mathlib.Core.Option.{Option, none, some}
use mathlib.Core.Logic.{◌⊎◌, inl, inr}

pub data Result {ℓ κ} (A : Type ℓ) (E : Type κ) : Type (ℓ ⊔ κ) where
  ok : A → Result A E
  err : E → Result A E

infixl 5 ◌>>=◌
abbrev pub ◌>>=◌ {ℓ κ μ} :
    {A : Type ℓ} {B : Type κ} {E : Type μ} → Result A E → (A → Result B E) → Result B E
ok a >>= f = f a
err e >>= f = err e

module _ {ℓ κ} {A : Type ℓ} {E : Type κ} where
  -- `Option::ok_or`.
  abbrev pub ok_or : Option A → E → Result A E
  ok_or (some a) e = ok a
  ok_or none e = err e

  -- `Result::map_err`.
  abbrev pub map_err {μ} : {F : Type μ} → Result A E → (E → F) → Result A F
  map_err (ok a) f = ok a
  map_err (err e) f = err (f e)

  -- `Result::map`.
  abbrev pub map_ok {μ} : {B : Type μ} → Result A E → (A → B) → Result B E
  map_ok (ok a) f = ok (f a)
  map_ok (err e) f = err e

  pub Result-cases : (r : Result A E) → ((a : A) × (r ≡ ok a)) ⊎ ((e : E) × (r ≡ err e))
  Result-cases (ok a) = inl (a, refl)
  Result-cases (err e) = inr (e, refl)

-- A chain that succeeds took a first step that did.
pub >>=-eq-ok {ℓ κ μ} :
    {A : Type ℓ} {B : Type κ} {E : Type μ} (first : Result A E) (next : A → Result B E) {last : B}
    → (first >>= next) ≡ ok last
    → (mid : A) × (first ≡ ok mid) × (next mid ≡ ok last)
>>=-eq-ok (err bad) next reached = cc
>>=-eq-ok (ok mid) next reached = (mid, refl, reached)

-- `assert_eq!(r, Err(e))` under an equality of errors.
abbrev pub is_err {ℓ κ} : {A : Type ℓ} {E : Type κ} → (E → E → Bool) → Result A E → E → Bool
is_err same (ok a) e = false
is_err same (err x) e = same x e
