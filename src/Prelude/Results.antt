-- ===== src/Prelude/Results.antt =====
-- A `bool` result with output parameters: `ok` carries what is written on success, `err` the reason
-- that is written to `*error`. On failure the source leaves its outputs as they were.
use mathlib.Core.Path.{◌≡◌, refl}

pub data Result {ℓ κ} (E : Type ℓ) (A : Type κ) : Type (ℓ ⊔ κ) where
  ok : A → Result E A
  err : E → Result E A

module _ {ℓ κ ν} {E : Type ℓ} {A : Type κ} {B : Type ν} where
  infixl 5 ◌>>=◌ ◌>>◌
  -- the first error is the result
  abbrev pub ◌>>=◌ : Result E A → (A → Result E B) → Result E B
  err reason >>= next = err reason
  ok value >>= next = next value

  -- A successful chain has a successful first step.
  pub >>=-eq-ok :
      (step : Result E A) (next : A → Result E B) {b : B}
      → (step >>= next) ≡ ok b
      → (value : A) × (step ≡ ok value) × (next value ≡ ok b)
  >>=-eq-ok (err reason) next h = cc
  >>=-eq-ok (ok value) next h = (value, refl, h)

  abbrev pub ◌>>◌ : Result E A → Result E B → Result E B
  step >> next = step >>= λ _. next
