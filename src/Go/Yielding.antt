-- ===== src/Go/Yielding.antt =====
-- Computations that return a value in every world, which the code's sequencing keeps.
use hackfs_mdc.Base.{◌≡◌, refl, Option, some}
use hackfs_mdc.Go.{Outcome, returned, pure, call, deref, ◌>>=◌}

-- In every world the computation returns a value with the property: it does not panic.
abbrev pub Yields {ℓ κ ι} :
    {W : Type ℓ} {A : Type κ} → (A → Type ι) → (W → Outcome A × W) → Type (ℓ ⊔ κ ⊔ ι)
Yields {W = W} {A = A} P m = (w : W) → (a : A) × P a × ((m w).0 ≡ returned a)

abbrev pub Any {ℓ} : {A : Type ℓ} → A → Type 0
Any a = Unit

module _ {ℓ ι} {W : Type ℓ} {A : Type ℓ} (P : A → Type ι) where
  pub pure-Yields : (a : A) → P a → Yields P (pure {W = W} a)
  pure-Yields a p w = (a, p, refl)

  pub deref-Yields : (o : Option A) (a : A) → o ≡ some a → P a → Yields P (deref {W = W} o)
  deref-Yields o a h p w = rw h (a, p, refl)

module _ {ℓ} {W : Type ℓ} {A : Type ℓ} where
  pub call-Yields : (f : W → A × W) → Yields Any (call f)
  call-Yields f w = ((f w).0, tt, refl)

module _ {ℓ κ ι μ ν} {W : Type ℓ} {A : Type κ} {B : Type ι} (P : A → Type μ) (Q : B → Type ν) where
  pub bind-Yields :
      (m : W → Outcome A × W) (f : A → W → Outcome B × W)
      → Yields P m
      → ((a : A) → P a → Yields Q (f a))
      → Yields Q (m >>= f)
  bind-Yields m f ym yf w = let (a, p, h) = ym w in rw h (yf a p (m w).1)
