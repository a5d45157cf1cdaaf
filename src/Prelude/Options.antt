-- ===== src/Prelude/Options.antt =====
-- Equations of `Option.map`.
use mathlib.Core.Option
use mathlib.Core.Option.{Option, none, some, some-injective, none-ne-some}
use mathlib.Core.Path.{◌≡◌, refl}

module _ {ℓ κ} {A : Type ℓ} {B : Type κ} (f : A → B) where
  pub map-eq-some :
      (o : Option A) {b : B} → Option.map f o ≡ some b → (a : A) × (o ≡ some a) × (f a ≡ b)
  map-eq-some none h = absurd (none-ne-some _ h)
  map-eq-some (some a) h = (a, refl, some-injective _ _ h)

  pub map-some : (o : Option A) (a : A) → o ≡ some a → Option.map f o ≡ some (f a)
  map-some o a e = rw e
