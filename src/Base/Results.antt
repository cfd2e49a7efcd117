-- ===== src/Base/Results.antt =====
-- What a call comes to: it throws, or it returns a value.
use mathlib.Core.Path.{◌≡◌, refl}
use mathlib.Core.Logic.{◌⊎◌, inl, inr}

pub data Result {ℓ κ} (E : Type ℓ) (A : Type κ) : Type (ℓ ⊔ κ) where
  throw : (error : E) → Result E A
  ok : (value : A) → Result E A

module _ {ℓ κ} {E : Type ℓ} {A : Type κ} where
  pub Result-cases :
      (call : Result E A) → ((value : A) × (call ≡ ok value)) ⊎ ((error : E) × (call ≡ throw error))
  Result-cases (throw error) = inr (error, refl)
  Result-cases (ok value) = inl (value, refl)

  -- The value, where there is one, has the property.
  abbrev pub Returns {μ} : (A → Type μ) → Result E A → Type μ
  Returns P (throw error) = Unit
  Returns P (ok value) = P value

module _ {ℓ κ μ} {E : Type ℓ} {A : Type κ} {B : Type μ} where
  -- What follows a call that may have thrown.
  infixl 5 ◌>>=◌
  abbrev pub ◌>>=◌ : Result E A → (A → Result E B) → Result E B
  throw error >>= next = throw error
  ok value >>= next = next value

  pub Returns->>= {ν ξ} :
      (P : A → Type ν) (Q : B → Type ξ) (call : Result E A) (next : A → Result E B)
      → Returns P call
      → ((value : A) → P value → Returns Q (next value))
      → Returns Q (call >>= next)
  Returns->>= P Q (throw error) next held step = tt
  Returns->>= P Q (ok value) next held step = step value held
