-- ===== src/Tests/Platform.antt =====
-- Small runs of the worker.
use vai_core.Prelude.{
  ℕ, true, false, Option, none, some, [], ◌∷◌, Result, ok, err, ◌≡◌, refl, if◌then◌else◌, ltb,
}
use vai_core.Jobs.State.{JobState, succeeded, failed}
use vai_core.Jobs.Job.{Job, ChannelMessage, Output, Raised, text, create_job}
use vai_core.Jobs.Action.{Failure}
use vai_core.Pipeline.Execution.{Executor}
use vai_core.Prelude.Dict.{get, put}
use vai_core.Recovery
use vai_core.Safety.DegradedMode as Degraded
use vai_core.Safety.DegradedMode.{check_recovery}
use vai_core.Queue.{pop}
use vai_core.Jobs.ControlPlane.{
  append_lifecycle_event, append_cycle_trace, issue_resume_token, mark_running, mark_failed,
  mark_succeeded, mark_poison,
}
use vai_core.Pipeline.{run}
use vai_core.Pipeline.Stages.{
  crash_recovery_stage, idempotency_stage, degraded_mode_stage, handle_degraded_cycle,
  enter_degraded,
}
use vai_core.Pipeline.Execution.{
  execution_stage, execution_loop, run_cycle, after_cycle, on_panic, on_poison, on_retry,
  on_success, complete,
}
use vai_core.Worker.{
  run_on, run_pipeline, on_crash, route_response, Worker, Setup, Processed, processed, process_next,
}

abbrev pub hello : ChannelMessage
hello = record { input = "{}"; metadata = "{}"; channel = "cli" }

abbrev pub answer : Output
answer = record {
  output = some "done";
  done = some true;
  cognitive_state = none;
  memory = none;
  result = none;
}

abbrev pub rate_limited : Raised
rate_limited = record { error_type = "RateLimitError"; message = text "slow down" }

-- Fails `n` times, then answers.
abbrev pub flaky : ℕ → Executor
flaky n k call = if ltb k n then err rate_limited else ok answer

abbrev pub setup : ℕ → Setup
setup n = record {
  token = λ k. "token";
  executor = flaky n;
  now = 0;
  has_registry = true;
  channels = "cli" ∷ [];
  fuel = 20;
}

abbrev pub first : Job
first = create_job "job-1" 7 hello

abbrev pub start : Worker
start = record {
  queue = record { items = first ∷ []; in_flight = [] };
  store = [];
  tokens = 0;
  calls = 0;
  degraded = false;
}

abbrev state_of : Result Failure Processed → Option JobState
state_of (ok (processed job r)) = some job.state
state_of _ = none

-- Opens the program.
unfoldable pub program : Unit {0}
unfolding process_next pop run_on run_pipeline run on_crash route_response crash_recovery_stage
    idempotency_stage degraded_mode_stage handle_degraded_cycle enter_degraded execution_stage
    execution_loop run_cycle after_cycle on_panic on_poison on_retry on_success complete
    Recovery.evaluate Recovery.validate_resume_token Degraded.evaluate check_recovery get put
    append_lifecycle_event append_cycle_trace issue_resume_token mark_running mark_failed
    mark_succeeded mark_poison create_job
program = tt

run_ok : state_of (process_next (setup 0) start).0 ≡ some succeeded
unfolding program
run_ok = refl

run_retry : state_of (process_next (setup 4) start).0 ≡ some succeeded
unfolding program
run_retry = refl

run_fail : state_of (process_next (setup 5) start).0 ≡ some failed
unfolding program
run_fail = refl
