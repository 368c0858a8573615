-- ===== src/Jobs/Action.antt =====
-- Statements that mutate the worker's job and the job store, and may raise. The state outlives an
-- exception, as it does under Python's `except`.
use vai_core.Prelude.{ℕ, Bool, Result, ok, err}
use vai_core.Prelude.Dict.{Dict}
use vai_core.Jobs.Job.{Job, Raised}

-- The worker's live job, the job store, how many resume tokens were issued and executor calls
-- made, and `DegradedModeStage._degraded`.
pub record World : Type 0 where
  pub job : Job
  pub store : Dict Job
  pub tokens : ℕ
  pub calls : ℕ
  pub degraded : Bool

-- `no_fuel` is no exception of the program: it marks a run that was cut off.
pub data Failure : Type 0 where
  raised : Raised → Failure
  no_fuel : Failure

abbrev pub Action : Type 0 → Type 0
Action A = World → Result Failure A × World

abbrev pub pure : {A : Type 0} → A → Action A
pure a w = (ok a, w)

abbrev pub throw : {A : Type 0} → Failure → Action A
throw e w = (err e, w)

abbrev pub and_then : {A B : Type 0} → Result Failure A → (A → Action B) → Action B
and_then (ok a) f w = f a w
and_then (err e) f w = (err e, w)

infixl 5 ◌>>=◌ ◌>>◌
abbrev pub ◌>>=◌ : {A B : Type 0} → Action A → (A → Action B) → Action B
◌>>=◌ m f w = let (r, w') = m w in and_then r f w'

abbrev pub ◌>>◌ : {B : Type 0} → Action (Unit {0}) → Action B → Action B
◌>>◌ m k = m >>= λ _. k

-- A statement that cannot raise.
abbrev pub modify : (World → World) → Action (Unit {0})
modify f w = (ok tt, f w)

abbrev pub get_job : Action Job
get_job w = (ok w.job, w)

abbrev pub with_job : (Job → Job) → World → World
with_job f w = record w { job = f w.job }
