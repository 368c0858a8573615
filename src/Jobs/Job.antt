-- ===== src/Jobs/Job.antt =====
-- The `Job` record and what it carries (src/platform/runtime/job.py, execution_context.py).
-- A JSON blob that the runtime stores and forwards without reading it is a text. Timestamps inside
-- trace entries are left out: nothing reads them.
use vai_core.Prelude.{ℕ, Bool, Option, none, List, [], String}
use vai_core.Jobs.State.{JobState, pending}

abbrev pub Blob : Type 0
Blob = String

-- `ChannelMessage`: the inbound message that a job was made from.
pub record ChannelMessage : Type 0 where
  pub input : Blob
  pub metadata : Blob
  pub channel : String

-- The text of an exception, with the values that its f-string inserts.
pub data Message : Type 0 where
  text : String → Message
  illegal : (current target : JobState) → Message
  cannot_register : JobState → Message

-- An exception: the name of its class, and its text.
pub record Raised : Type 0 where
  pub error_type : String
  pub message : Message

-- The entries of `ExecutionContext.cycle_trace`.
pub data CycleEvent : Type 0 where
  cycle_start : CycleEvent
  cycle_end : (done : Bool) → CycleEvent
  cycle_retry : (delay attempt : ℕ) → CycleEvent

pub record ExecutionContext : Type 0 where
  pub cognitive_state : Blob
  pub last_result : Option Blob
  pub memory : Blob
  pub cycle_trace : List CycleEvent

-- `ExecutionContext()`
abbrev pub fresh_context : ExecutionContext
fresh_context = record {
  cognitive_state = "{}";
  last_result = none;
  memory = "{}";
  cycle_trace = [];
}

-- The dict that an executor returns; a key that is absent is `none`.
pub record Output : Type 0 where
  pub output : Option String
  pub done : Option Bool
  pub cognitive_state : Option Blob
  pub memory : Option Blob
  pub result : Option Blob

-- The reasons that degraded mode gives (the `REASON_` constants), and those of its recovery check.
pub data Reason : Type 0 where
  consecutive_failures_exceeded panic_threshold_exceeded crash_threshold_exceeded : Reason
  retry_policy_exhausted s1_instability s2_instability s3_instability multi_signal : Reason
  already_degraded insufficient_signals s1_not_stable s2_not_stable s3_not_stable : Reason
  critical_errors_in_window recent_critical_error still_degraded unknown : Reason

-- The detail of a fallback output, with the count that its f-string inserts.
pub data Detail : Type 0 where
  after_failures after_panics after_crashes : ℕ → Detail
  because : Reason → Detail
  awaiting_recovery entered : Detail

pub data Hint : Type 0 where
  stable_cycles_and_window : (cycles window_ms : ℕ) → Hint
  s1_cycles : (cycles : ℕ) → Hint
  s2_integrity s3_heartbeat all_strata all_green waiting_for_signals awaiting_signals : Hint

-- `SafeFallbackOutput`; its `status` and `fallback_action` are constants.
pub record Fallback : Type 0 where
  pub reason : Reason
  pub detail : Detail
  pub job_id : String
  pub recovery_hint : Hint

-- What stands in `Job.result`.
pub data JobResult : Type 0 where
  executor_output : Output → JobResult
  error : Raised → JobResult
  poisoned : (max_failures : ℕ) → JobResult
  fallback : Fallback → JobResult

-- The events of the lifecycle trace, with their payloads.
pub data TraceEntry : Type 0 where
  state_transition : (from to : JobState) → TraceEntry
  hydrate_execution_context dehydrate_execution_context : TraceEntry
  crash_recovery poison_skip idempotency_recovery : TraceEntry
  worker_degraded : (worker_id job_id : String) (reason : Reason) → TraceEntry
  worker_recovered : (worker_id : String) (stability_window : ℕ) → TraceEntry

pub record Job : Type 0 where
  pub job_id : String
  pub created_at : ℕ
  pub state : JobState
  pub payload : ChannelMessage
  pub result : Option JobResult
  pub trace : List TraceEntry
  pub execution_context : Option ExecutionContext
  pub resume_token : Option String
  pub failure_count : ℕ
  pub consecutive_failures : ℕ
  pub panic_count : ℕ
  pub crash_count : ℕ
  pub job_type : String
  pub parent_job_id : Option String
  pub priority : ℕ
  pub max_retries : ℕ
  pub timeout_seconds : ℕ
  pub plan_id : Option String
  pub subtask_id : Option String
  pub depends_on : List String

-- `create_job`, with the UUID and the time that it draws as arguments.
unfoldable pub create_job : String → ℕ → ChannelMessage → Job
create_job uuid now message = record {
  job_id = uuid;
  created_at = now;
  state = pending;
  payload = message;
  result = none;
  trace = [];
  execution_context = none;
  resume_token = none;
  failure_count = 0;
  consecutive_failures = 0;
  panic_count = 0;
  crash_count = 0;
  job_type = "default";
  parent_job_id = none;
  priority = 0;
  max_retries = 0;
  timeout_seconds = 300;
  plan_id = none;
  subtask_id = none;
  depends_on = [];
}
