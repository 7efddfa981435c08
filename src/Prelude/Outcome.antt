-- ===== src/Prelude/Outcome.antt =====
-- The result of running code: a value, a fault (an access outside an object, or through a null or
-- dangling pointer), or a loop that has used up its fuel.
use mathlib.Core.Path.{◌≡◌, refl}

pub data Run {ℓ} (A : Type ℓ) : Type ℓ where
  ok : A → Run A
  fault : Run A
  out_of_fuel : Run A

infixl 5 ◌>>=◌
abbrev pub ◌>>=◌ {ℓ κ} : {A : Type ℓ} {B : Type κ} → Run A → (A → Run B) → Run B
ok a >>= f = f a
fault >>= f = fault
out_of_fuel >>= f = out_of_fuel

-- Total correctness: the run ends with a value, which has the property.
abbrev pub Returns {ℓ κ} : {A : Type ℓ} → (A → Type κ) → Run A → Type (ℓ ⊔ κ)
Returns {A} P r = (a : A) × (r ≡ ok a) × P a

module _ {ℓ κ} {A : Type ℓ} {B : Type κ} where
  pub >>=_ext : (m : Run A) (f g : A → Run B) → ((a : A) → f a ≡ g a) → (m >>= f) ≡ (m >>= g)
  >>=_ext (ok a) f g h = h a
  >>=_ext fault f g h = refl
  >>=_ext out_of_fuel f g h = refl

  -- A run whose value goes unused may be made twice.
  pub >>=_again : (m : Run A) (g : A → Run B) → (m >>= λ _. m >>= g) ≡ (m >>= g)
  >>=_again (ok a) g = refl
  >>=_again fault g = refl
  >>=_again out_of_fuel g = refl
