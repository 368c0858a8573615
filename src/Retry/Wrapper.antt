-- ===== src/Retry/Wrapper.antt =====
-- `ToolRetryWrapper.execute` and the panic guard round it
-- (src/platform/runtime/retry/tool_wrapper.py, safety/panic_guard.py).
use vai_core.Prelude.{ℕ, ◌+◌, Option, none, some, Bool, String, Result, ok, err, true}
use vai_core.Prelude.Dict.{Dict}
use vai_core.Jobs.Job.{Raised}
use vai_core.Retry.Policy.{Rule, evaluate, is_poison}

-- What `execute` returns: the callable's value, or an instruction.
pub data Attempt (A : Type 0) : Type 0 where
  returned : A → Attempt A
  retry : (delay next_attempt : ℕ) → Attempt A
  poisonous : (max_failures : ℕ) → Attempt A

-- Behind the poison check: retry by the policy's decision, or pass the exception on.
-- A decision to retry always carries a delay.
abbrev on_decision : {A : Type 0} → Bool → Option ℕ → ℕ → Raised → Result Raised (Attempt A)
on_decision true (some delay) attempt e = ok (retry delay (attempt + 1))
on_decision _ _ attempt e = err e

-- The detector is consulted if the wrapper has one and the call names its job.
abbrev poison_check : Option ℕ → Option String → ℕ → Option ℕ
poison_check (some max_failures) (some job_id) failure_count = is_poison max_failures failure_count
poison_check _ _ _ = none

abbrev on_exception : {A : Type 0} → Dict Rule → Option ℕ → ℕ → Raised → Result Raised (Attempt A)
on_exception rules (some max_failures) attempt e = ok (poisonous max_failures)
on_exception rules none attempt e =
    let decision = evaluate rules attempt e.error_type in
    on_decision decision.should_retry decision.delay attempt e

-- `execute`, given what the callable did.
unfoldable pub execute :
    {A : Type 0}
    → Dict Rule
    → (detector : Option ℕ) (attempt : ℕ) (job_id : Option String) (failure_count : ℕ)
    → Result Raised A
    → Result Raised (Attempt A)
unfolding evaluate is_poison
execute rules detector attempt job_id failure_count (ok a) = ok (returned a)
execute rules detector attempt job_id failure_count (err e) =
    on_exception rules (poison_check detector job_id failure_count) attempt e

-- What a cycle guarded by `PanicGuard.wrap` gives: the wrapper's value, or a panic.
pub data Guarded (A : Type 0) : Type 0 where
  value : A → Guarded A
  panic : Raised → Guarded A

abbrev pub wrap : {A : Type 0} → Result Raised A → Guarded A
wrap (ok a) = value a
wrap (err e) = panic e
