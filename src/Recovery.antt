-- ===== src/Recovery.antt =====
-- Crash recovery: of a job (src/platform/runtime/recovery/crash_recovery.py) and of a worker
-- (src/platform/runtime/worker_pool/crash_recovery.py).
use vai_core.Prelude.{Bool, true, false, Option, none, some, String, ◌==◌}
use vai_core.Jobs.State.{JobState, running}
use vai_core.Jobs.Job.{ExecutionContext}

pub data RecoveryReason : Type 0 where
  no_checkpoint : RecoveryReason
  not_running : JobState → RecoveryReason
  crash_detected : RecoveryReason

pub record RecoveryDecision : Type 0 where
  pub should_recover : Bool
  pub resume_token : Option String
  pub reason : RecoveryReason

-- `CrashRecovery.evaluate`
unfoldable pub evaluate : Option ExecutionContext → Option String → JobState → RecoveryDecision
evaluate none token state = record {
  should_recover = false;
  resume_token = none;
  reason = no_checkpoint;
}
evaluate (some c) token running = record {
  should_recover = true;
  resume_token = token;
  reason = crash_detected;
}
evaluate (some c) token state = record {
  should_recover = false;
  resume_token = none;
  reason = not_running state;
}

-- `CrashRecovery.validate_resume_token`
unfoldable pub validate_resume_token : (expected actual : Option String) → Bool
validate_resume_token none actual = true
validate_resume_token (some t) (some u) = t == u
validate_resume_token (some t) none = false

pub record WorkerPoolInstruction : Type 0 where
  pub should_restart : Bool
  pub worker_id : String
  pub should_requeue : Bool
  pub job_id : Option String

-- `WorkerCrashRecovery.evaluate`
unfoldable pub evaluate_worker : (worker_id : String) → Option String → WorkerPoolInstruction
evaluate_worker worker_id (some job) = record {
  should_restart = true;
  worker_id = worker_id;
  should_requeue = true;
  job_id = some job;
}
evaluate_worker worker_id none = record {
  should_restart = true;
  worker_id = worker_id;
  should_requeue = false;
  job_id = none;
}
