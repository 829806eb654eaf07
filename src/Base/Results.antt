-- ===== src/Base/Results.antt =====
-- Go's `(value, error)` returns, generic in the error.
use mathlib.Core.Path.{◌≡◌, refl}
use mathlib.Core.Logic.{◌⊎◌, inl, inr}

pub data Result {ℓ κ} (E : Type κ) (A : Type ℓ) : Type (ℓ ⊔ κ) where
  ok : A → Result E A
  err : E → Result E A

module _ {ℓ κ μ} {A : Type ℓ} {B : Type κ} {E : Type μ} where
  -- `x, err := m; if err != nil { return err }`
  infixl 5 ◌>>=◌
  abbrev pub ◌>>=◌ : Result E A → (A → Result E B) → Result E B
  err e >>= next = err e
  ok x >>= next = next x

  -- What a chain returned without an error went through its first call.
  pub >>=-eq-ok :
      (m : Result E A) (next : A → Result E B) {y : B}
      → (m >>= next) ≡ ok y
      → (x : A) × (m ≡ ok x) × (next x ≡ ok y)
  >>=-eq-ok (err e) next chain = cc
  >>=-eq-ok (ok x) next chain = (x, refl, chain)

module _ {ℓ μ} {A : Type ℓ} {E : Type μ} where
  pub Result-cases : (r : Result E A) → ((a : A) × (r ≡ ok a)) ⊎ ((e : E) × (r ≡ err e))
  Result-cases (ok a) = inl (a, refl)
  Result-cases (err e) = inr (e, refl)

  pub ok_injective : {a b : A} → ◌≡◌ {A = Result E A} (ok a) (ok b) → a ≡ b
  ok_injective h = cc
