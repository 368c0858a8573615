-- ===== src/Pipeline/Execution.antt =====
-- `ExecutionStage` (src/platform/runtime/pipeline/stages.py): the multi-cycle loop. The `while`
-- takes fuel, and raises `no_fuel` when it is used up.
pub mod Rounds
pub mod Poison
pub mod Termination
use vai_core.Prelude.{ℕ, zero, suc, ◌-◌, Bool, true, false, Option, none, some, String, Result}
use vai_core.Prelude.Dict.{Dict}
use vai_core.Jobs.Job.{
  Job, ChannelMessage, ExecutionContext, Output, Raised, executor_output, cycle_start, cycle_end,
  cycle_retry,
}
use vai_core.Jobs.Action.{World, Action, no_fuel, pure, throw, modify, with_job, ◌>>◌}
use vai_core.Jobs.ControlPlane.{
  save_checkpoint, issue_resume_token, append_cycle_trace, mark_succeeded, mark_failed, mark_poison,
}
use vai_core.Retry.Policy.{Rule, default_max_failures}
use vai_core.Retry.Wrapper.{
  Attempt, returned, retry, poisonous, execute, Guarded, value, panic, wrap,
}

-- What the executor is called with.
pub record Call : Type 0 where
  pub payload : ChannelMessage
  pub execution_context : Option ExecutionContext
  pub resume_token : Option String

-- The work executor is injected: what it does on its n-th call.
abbrev pub Executor : Type 0
Executor = ℕ → Call → Result Raised Output

abbrev pub get_or : {A : Type 0} → Option A → A → A
get_or none d = d
get_or (some a) d = a

abbrev pub call_of : Job → Call
call_of job = record {
  payload = job.payload;
  execution_context = job.execution_context;
  resume_token = job.resume_token;
}

abbrev count_failure : Job → Job
count_failure j = record j {
  failure_count = suc j.failure_count;
  consecutive_failures = suc j.consecutive_failures;
}

abbrev count_panic : Job → Job
count_panic j = record j {
  panic_count = suc j.panic_count;
  consecutive_failures = suc j.consecutive_failures;
}

-- The execution context takes over what the executor returned, if the job has one.
abbrev take_over : Output → Option ExecutionContext → Option ExecutionContext
take_over o none = none
take_over o (some c) = some (record c {
  cognitive_state = get_or o.cognitive_state "{}";
  memory = get_or o.memory "{}";
  last_result = o.result;
})

abbrev count_success : Output → Job → Job
count_success o j = record j {
  failure_count = 0;
  consecutive_failures = 0;
  execution_context = take_over o j.execution_context;
}

module _ (executor : Executor) (rules : Dict Rule) where
  -- `run_cycle()`
  unfoldable pub run_cycle : (attempt : ℕ) → World → Guarded (Attempt Output)
  unfolding execute
  run_cycle attempt w = wrap (
      execute rules (some default_max_failures) attempt (some w.job.job_id) w.job.failure_count
        (executor w.calls (call_of w.job)))

unfoldable pub on_poison : ℕ → Action (Unit {0})
unfolding mark_poison
on_poison max_failures = modify (with_job count_failure) >> mark_poison max_failures

module _ (token : ℕ → String) where
  unfoldable pub on_panic : Raised → Action (Unit {0})
  unfolding mark_failed save_checkpoint
  on_panic e = modify (with_job count_panic) >> (mark_failed token e >> modify save_checkpoint)

  unfoldable pub on_retry : (delay next_attempt : ℕ) → World → World
  unfolding append_cycle_trace save_checkpoint issue_resume_token
  on_retry delay next w = issue_resume_token token (
      save_checkpoint
        (append_cycle_trace (cycle_retry delay (next - 1)) (with_job count_failure w)))

  unfoldable pub on_success : Output → World → World
  unfolding append_cycle_trace save_checkpoint issue_resume_token
  on_success o w = issue_resume_token token (
      save_checkpoint
        (append_cycle_trace (cycle_end (get_or o.done false)) (with_job (count_success o) w)))

  -- The loop is complete.
  unfoldable pub complete : Output → Action (Unit {0})
  unfolding mark_succeeded save_checkpoint
  complete o = mark_succeeded token (executor_output o) >> modify save_checkpoint

  abbrev pub unless_done : Bool → Output → Action (Unit {0}) → Action (Unit {0})
  unless_done true o again = complete o
  unless_done false o again = again

  -- The body behind `run_cycle()`, with the next round of the loop as an argument.
  unfoldable pub after_cycle :
      (again : ℕ → Action (Unit {0})) → Guarded (Attempt Output) → Action (Unit {0})
  after_cycle again (panic e) = on_panic e
  after_cycle again (value (poisonous max_failures)) = on_poison max_failures
  after_cycle again (value (retry delay next)) = modify (on_retry delay next) >> again next
  after_cycle again (value (returned o)) =
      modify (on_success o) >> unless_done (get_or o.done false) o (again 1)

module _ (token : ℕ → String) (executor : Executor) (rules : Dict Rule) where
  unfoldable pub execution_loop : (fuel attempt : ℕ) → Action (Unit {0})
  execution_loop zero attempt w = throw no_fuel w
  execution_loop (suc fuel) attempt w =
      let w' = append_cycle_trace cycle_start w in
      after_cycle token (execution_loop fuel) (run_cycle executor rules attempt w')
        (record w' { calls = suc w'.calls })

  -- `ExecutionStage.evaluate`
  unfoldable pub execution_stage : (fuel : ℕ) → Action Bool
  execution_stage fuel = execution_loop fuel 1 >> pure true
