-- ===== src/Go/Laws.antt =====
-- Results and outcomes, taken apart with the equation kept.
use hackfs_mdc.Base.{◌≡◌, refl, ◌⊎◌, inl, inr}
use hackfs_mdc.Go.{Outcome, returned, panicked, Result, ok, err}

pub Result-cases {ℓ κ} :
    {E : Type ℓ} {A : Type κ} (r : Result E A) → ((e : E) × (r ≡ err e)) ⊎ ((a : A) × (r ≡ ok a))
Result-cases (ok a) = inr (a, refl)
Result-cases (err e) = inl (e, refl)

pub Outcome-cases {ℓ} : {A : Type ℓ} (o : Outcome A) → (o ≡ panicked) ⊎ ((a : A) × (o ≡ returned a))
Outcome-cases (returned a) = inr (a, refl)
Outcome-cases panicked = inl refl

-- `Q` of the value and the world where a computation gives a value, `R` of the world where it gives
-- an error or panics.
abbrev pub Ends {ℓ} :
    {E A W : Type 0} → (A → W → Type ℓ) → (W → Type ℓ) → Outcome (Result E A) → W → Type ℓ
Ends Q R (returned (ok a)) w = Q a w
Ends Q R (returned (err e)) w = R w
Ends Q R panicked w = R w
