-- ===== src/Prelude/Outcome.antt =====
-- A Go result `(value, error)` of which exactly one part counts.
use mathlib.Core.Path.{◌≡◌, refl}
use mathlib.Core.Logic.{◌↔◌, ◌⊎◌, inl, inr}
use native.Mathlib.Omega.{arith}

pub data Result {ℓ} (E A : Type ℓ) : Type ℓ where
  ok : A → Result E A
  err : E → Result E A

module _ {ℓ} {E A : Type ℓ} where
  pub Result-cases : (r : Result E A) → ((a : A) × (r ≡ ok a)) ⊎ ((e : E) × (r ≡ err e))
  Result-cases (ok a) = inl (a, refl)
  Result-cases (err e) = inr (e, refl)

module _ {ℓ} {E A B : Type ℓ} where
  infixl 5 ◌>>=◌ ◌>>◌
  -- `if err != nil { return err }`
  abbrev pub ◌>>=◌ : Result E A → (A → Result E B) → Result E B
  ok a >>= f = f a
  err e >>= f = err e

  abbrev pub ◌>>◌ : Result E A → Result E B → Result E B
  m >> n = m >>= λ _. n

module _ {E : Type 0} where
  -- Two checks in a row pass exactly when both pass.
  pub >>-ok_iff : (m n : Result E Unit) → (m >> n ≡ ok tt) ↔ (m ≡ ok tt) × (n ≡ ok tt)
  >>-ok_iff (ok tt) n = (λ h. (refl, h), λ (_, h). h)
  >>-ok_iff (err e) n = ground arith
