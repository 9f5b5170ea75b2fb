-- ===== src/Process.antt =====
-- Programs: computations that may end the process, and FatalOnError of
-- backend/pkg/common/errors.go and LoadConfig of config.go.
pub mod Ending
use hackfs_mdc.Base.{ℕ, String, ◌<>◌, Option, none, some}
use hackfs_mdc.Go.{Outcome, returned, panicked, Result, ok, err}
use hackfs_mdc.Common.{Error, error_text}

-- How a process ends early: a fatal log line, a panic with an error, a run-time panic, or
-- `os.Exit`.
pub data Ended : Type 0 where
  fatal : String → Ended
  raised : Error → Ended
  run_time_panic : Ended
  exited : ℕ → Ended

abbrev pub Process : Type 0 → Type 0 → Type 0
Process W A = W → Result Ended A × W

module _ {W A : Type 0} where
  abbrev pub done : A → Process W A
  done a w = (ok a, w)

  abbrev pub stop : Ended → Process W A
  stop e w = (err e, w)

  abbrev pub ask : (W → A × W) → Process W A
  ask f w = let (a, w') = f w in (ok a, w')

  -- A computation that may panic, within a program.
  abbrev pub from_outcome : Outcome A → W → Result Ended A × W
  from_outcome (returned a) w = (ok a, w)
  from_outcome panicked w = (err run_time_panic, w)

  abbrev pub within : (W → Outcome A × W) → Process W A
  within m w = let (o, w') = m w in from_outcome o w'

abbrev pub change : {W : Type 0} → (W → W) → W → Result Ended (Unit {0}) × W
change f w = (ok tt, f w)

module _ {W A B : Type 0} where
  abbrev pub next : Result Ended A → (A → Process W B) → Process W B
  next (ok a) f w = f a w
  next (err e) f w = (err e, w)

  infixl 5 ◌>>=◌
  abbrev pub ◌>>=◌ : Process W A → (A → Process W B) → Process W B
  ◌>>=◌ m f w = let (r, w') = m w in next r f w'

module _ {W B : Type 0} where
  infixl 5 ◌>>◌
  abbrev pub ◌>>◌ : (W → Result Ended (Unit {0}) × W) → Process W B → Process W B
  m >> k = m >>= λ _. k

-- `Logger.Fatalf("%s: %s", msg, err)`
abbrev pub fatal_error : String → Error → Ended
fatal_error msg e = fatal (msg <> ": " <> error_text e)

module _ {W : Type 0} where
  -- A call that gives a value or an error, followed by `FatalOnError`.
  unfoldable pub or_fatal : {A : Type 0} → String → (W → Result Error A × W) → Process W A
  or_fatal msg f w = elim (f w).0 [
    | ok a ↦ (ok a, (f w).1)
    | err e ↦ (err (fatal_error msg e), (f w).1)
  ]

  -- `envconfig.Process` fills the configuration.
  unfoldable pub load_config : {C : Type 0} → (W → Result Error C × W) → Process W C
  load_config process = or_fatal "envconfig.Process failed" process
