-- ===== src/Go.antt =====
-- Go code with effects: a computation over the world outside, which may panic.
pub mod Laws
pub mod Yielding
use hackfs_mdc.Base.{String, Option, none, some}

-- `panicked` is a run-time panic, such as the read of a field through a nil pointer.
pub data Outcome {ℓ} (A : Type ℓ) : Type ℓ where
  returned : A → Outcome A
  panicked : Outcome A

abbrev pub Go {ℓ} : Type ℓ → Type ℓ → Type ℓ
Go W A = W → Outcome A × W

-- A value, or the error that comes in its place.
pub data Result {ℓ κ} (E : Type ℓ) (A : Type κ) : Type (ℓ ⊔ κ) where
  ok : A → Result E A
  err : E → Result E A

module _ {ℓ} {W A : Type ℓ} where
  abbrev pub pure : A → Go W A
  pure a w = (returned a, w)

  abbrev pub panic : Go W A
  panic w = (panicked, w)

  -- An external call that does not panic.
  abbrev pub call : (W → A × W) → Go W A
  call f w = let (a, w') = f w in (returned a, w')

  -- `*p`, or a field read through `p`
  abbrev pub deref : Option A → Go W A
  deref none = panic
  deref (some a) = pure a

abbrev pub effect {ℓ} : {W : Type ℓ} → (W → W) → W → Outcome (Unit {0}) × W
effect f w = (returned tt, f w)

module _ {ℓ κ ι} {W : Type ℓ} {A : Type κ} {B : Type ι} where
  abbrev pub continue : Outcome A → (A → W → Outcome B × W) → W → Outcome B × W
  continue (returned a) f w = f a w
  continue panicked f w = (panicked, w)

  infixl 5 ◌>>=◌
  abbrev pub ◌>>=◌ : (W → Outcome A × W) → (A → W → Outcome B × W) → W → Outcome B × W
  ◌>>=◌ m f w = let (o, w') = m w in continue o f w'

module _ {ℓ κ} {W : Type ℓ} {B : Type κ} where
  infixl 5 ◌>>◌
  abbrev pub ◌>>◌ : (W → Outcome (Unit {0}) × W) → (W → Outcome B × W) → W → Outcome B × W
  m >> k = m >>= λ _. k
