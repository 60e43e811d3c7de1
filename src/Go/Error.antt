-- ===== src/Go/Error.antt =====
-- A Go function's pair of a value and an `error`: the value of the successful return, or the text of
-- the error.
use silver_leaf.Prelude.{String, ◌≡◌, refl, ◌⊎◌, inl, inr}

pub data Result {ℓ} (A : Type ℓ) : Type ℓ where
  ok : A → Result A
  err : String → Result A

pub Result-cases {ℓ} :
    {A : Type ℓ} (r : Result A) → ((a : A) × (r ≡ ok a)) ⊎ ((m : String) × (r ≡ err m))
Result-cases (ok a) = inl (a, refl)
Result-cases (err m) = inr (m, refl)
