-- ===== src/Worker.antt =====
-- The worker (src/platform/runtime/worker.py): one job per `process_next` call.
pub mod Preflight
pub mod Lease
pub mod ShortCircuit
pub mod Recovered
pub mod Fresh
pub mod Degraded
use vai_core.Prelude.{
  elem, ℕ, Bool, true, false, Option, none, some, List, [], ◌∷◌, String, Result, ok, err, ◌==◌,
  if◌then◌else◌,
}
use vai_core.Prelude.Dict.{Dict, get}
use vai_core.Jobs.State.{is_pending, JobState, succeeded, failed, poison}
use vai_core.Jobs.Job.{Job, Raised, JobResult, executor_output, hydrate_execution_context}
use vai_core.Jobs.Action.{World, Failure, raised, no_fuel, Action, pure, modify, ◌>>◌}
use vai_core.Jobs.ControlPlane.{append_lifecycle_event, save_checkpoint, mark_running, mark_failed}
use vai_core.Queue.{Queue, pop}
use vai_core.Retry.Policy.{default_retry_rules}
use vai_core.Safety.DegradedMode.{default_degraded_mode}
use vai_core.Pipeline.{Stage, run}
use vai_core.Pipeline.Stages.{crash_recovery_stage, idempotency_stage, degraded_mode_stage}
use vai_core.Pipeline.Execution.{Executor, execution_stage}

-- The worker with the queue and the store that it works on.
pub record Worker : Type 0 where
  pub queue : Queue Job
  pub store : Dict Job
  pub tokens : ℕ
  pub calls : ℕ
  pub degraded : Bool

-- What the worker was made with: the UUID source, the executor and the clock; the
-- channel that a name is registered under; and the fuel of the execution loop.
pub record Setup : Type 0 where
  pub token : ℕ → String
  pub executor : Executor
  pub now : ℕ
  pub has_registry : Bool
  pub channels : List String
  pub fuel : ℕ

-- What one call of `process_next` does: nothing on an empty queue; a job handed back unprocessed;
-- a processed job, its response for its channel, and the `on_job_complete` call that is made on it.
pub data Processed : Type 0 where
  idle : Processed
  skipped : Job → Processed
  processed : (job : Job) (response : Option (String × String)) → Processed

-- Keep a stored value where there is one.
abbrev pub or_stored : {A : Type 0} → Option A → Option A → Option A
or_stored (some a) b = some a
or_stored none b = b

-- The checkpoint load.
abbrev pub hydrate : Option Job → Job → Job
hydrate none job = job
hydrate (some stored) job = record job {
  execution_context = or_stored stored.execution_context job.execution_context;
  resume_token = or_stored stored.resume_token job.resume_token;
  failure_count = stored.failure_count;
}

-- `stored.state in (FAILED, POISON)`
abbrev pub is_dead : JobState → Bool
is_dead failed = true
is_dead poison = true
is_dead _ = false

abbrev pub skip_of : Option Job → Option Job
skip_of none = none
skip_of (some stored) = if is_dead stored.state then some stored else none

-- `try: … except Exception as exc: …`, given what the body did.
abbrev pub caught :
    {A : Type 0} → (Raised → Action A) → Result Failure A × World → Result Failure A × World
caught handler (ok a, w) = (ok a, w)
caught handler (err (raised e), w) = handler e w
caught handler (err no_fuel, w) = (err no_fuel, w)

abbrev text_of : Option JobResult → Option String
text_of (some (executor_output o)) = o.output
text_of _ = none

-- A job's state is SUCCEEDED only with the executor's output or a fallback, which has no `output`.
abbrev send_to : String → Option String → Option (String × String)
send_to channel none = none
send_to channel (some text) = if text == "" then none else some (channel, text)

abbrev is_succeeded : JobState → Bool
is_succeeded succeeded = true
is_succeeded _ = false

-- `_route_response`: what is sent, and to which channel.
unfoldable pub route_response : Setup → Job → Option (String × String)
unfolding elem
route_response s job =
    let channel = job.payload.channel in
    if s.has_registry
    then (if is_succeeded job.state
        then (if channel == ""
            then none
            else if elem channel s.channels
            then send_to channel (text_of job.result)
            else none)
        else none)
    else none

abbrev pub world_of : Worker → Job → World
world_of w job = record {
  job = job;
  store = w.store;
  tokens = w.tokens;
  calls = w.calls;
  degraded = w.degraded;
}

module _ (s : Setup) where
  abbrev pub stages : Option Job → List Stage
  stages stored =
      crash_recovery_stage s.token
      ∷ idempotency_stage stored
      ∷ degraded_mode_stage s.token (default_degraded_mode "") s.now none
      ∷ execution_stage s.token s.executor default_retry_rules s.fuel
      ∷ []

  -- The handler of a crash outside the stages' own handling.
  unfoldable pub on_crash : Raised → Action Bool
  on_crash e w =
      (if is_pending w.job.state
        then (mark_running >> (mark_failed s.token e >> (modify save_checkpoint >> pure true))) w
        else (mark_failed s.token e >> (modify save_checkpoint >> pure true)) w)

  unfoldable pub run_pipeline : Option Job → Action Bool
  run_pipeline stored w = caught on_crash (run (stages stored) w)

  abbrev put_world : Queue Job → World → Worker
  put_world q w = record {
    queue = q;
    store = w.store;
    tokens = w.tokens;
    calls = w.calls;
    degraded = w.degraded;
  }

  abbrev pub finish : Queue Job → Result Failure Bool × World → Result Failure Processed × Worker
  finish q (ok _, w) = (ok (processed w.job (route_response s w.job)), put_world q w)
  finish q (err e, w) = (err e, put_world q w)

  unfoldable pub run_on : Worker → (stored : Option Job) → Job → Result Failure Bool × World
  run_on w stored job =
      run_pipeline stored
        (append_lifecycle_event hydrate_execution_context (world_of w (hydrate stored job)))

  -- With a stored job that is dead, it is handed back; else the pipeline runs.
  abbrev pub handle :
      Worker → Queue Job → Job → (stored dead : Option Job) → Result Failure Processed × Worker
  handle w q job stored (some dead) = (ok (skipped dead), record w { queue = q })
  handle w q job stored none = finish q (run_on w stored job)

  abbrev pub process_job : Worker → Queue Job → Job → Result Failure Processed × Worker
  process_job w q job =
      let stored = get w.store job.job_id in handle w q job stored (skip_of stored)

  abbrev pub process_popped : Worker → Option Job × Queue Job → Result Failure Processed × Worker
  process_popped w (none, q) = (ok idle, record w { queue = q })
  process_popped w (some job, q) = process_job w q job

  unfoldable pub process_next : Worker → Result Failure Processed × Worker
  process_next w = process_popped w (pop (λ job. job.job_id) w.queue)
