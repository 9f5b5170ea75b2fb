-- ===== src/Process/Ending.antt =====
-- What a program gives, and how it may end early.
use hackfs_mdc.Base.{◌≡◌, refl, inl, inr, String}
use hackfs_mdc.Go.{Result, ok, err}
use hackfs_mdc.Go.Laws.{Result-cases}
use hackfs_mdc.Common.{Error}
use hackfs_mdc.Process.{Ended, fatal, Process, or_fatal, ◌>>=◌}

-- `Q` of the value and the world if there is a value, `K` of the end otherwise.
abbrev pub Gives :
    {A W : Type 0} → (Ended → Type 0) → (A → W → Type 0) → Result Ended A → W → Type 0
Gives K Q (ok a) w = Q a w
Gives K Q (err e) w = K e

-- Ends with a fatal log line.
abbrev pub IsFatal : Ended → Type 0
IsFatal e = (text : String) × (e ≡ fatal text)

module _ {W A : Type 0} where
  pub or_fatal-Gives :
      (msg : String) (f : W → Result Error A × W) (w : W)
      → let r = or_fatal msg f w in Gives IsFatal (λ a w'. f w ≡ (ok a, w')) r.0 r.1
  unfolding or_fatal
  or_fatal-Gives msg f w = elim (Result-cases (f w).0) [
    | inl (e, h) ↦ rw (h, or_fatal) (_, refl)
    | inr (a, h) ↦ rw (h, or_fatal) refl
  ]

module _ {W A B : Type 0} (K : Ended → Type 0) (P : A → W → Type 0) (Q : B → W → Type 0) where
  pub bind-Gives :
      (m : Process W A) (f : A → Process W B) (w : W)
      → Gives K P (m w).0 (m w).1
      → ((a : A) (w' : W) → P a w' → Gives K Q (f a w').0 (f a w').1)
      → Gives K Q ((m >>= f) w).0 ((m >>= f) w).1
  bind-Gives m f w g k = elim (Result-cases (m w).0) [
    | inl (e, h) ↦ rw h (rw h at g)
    | inr (a, h) ↦ rw h (k a (m w).1 (rw h at g))
  ]
