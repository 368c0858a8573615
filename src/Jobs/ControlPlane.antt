-- ===== src/Jobs/ControlPlane.antt =====
-- The control plane (src/platform/runtime/control_plane.py): every change of a job's state, with
-- its trace entry and its write to the job store. Metrics, logs and alerts are not modelled.
use vai_core.Prelude.{ℕ, suc, Option, none, some, [], ◌∷◌, ◌++◌, String, ok, err, if◌then◌else◌}
use vai_core.Prelude.Dict.{put}
use vai_core.Jobs.State.{
  is_pending, JobState, running, succeeded, failed, poison, transition, IllegalTransition,
}
use vai_core.Jobs.Job.{
  Job, Raised, illegal, cannot_register, JobResult, error, poisoned, CycleEvent, ExecutionContext,
  fresh_context, TraceEntry, state_transition, dehydrate_execution_context,
}
use vai_core.Jobs.Action.{World, Action, raised, throw, modify, with_job, ◌>>◌}

-- `job_store.save(job)`
abbrev pub save : World → World
save w = record w { store = put w.store w.job.job_id w.job }

abbrev add_trace : TraceEntry → Job → Job
add_trace e job = record job { trace = job.trace ++ e ∷ [] }

unfoldable pub append_lifecycle_event : TraceEntry → World → World
append_lifecycle_event e w = save (with_job (add_trace e) w)

unfoldable pub save_checkpoint : World → World
unfolding append_lifecycle_event
save_checkpoint w = save (append_lifecycle_event dehydrate_execution_context w)

-- `_append_trace`
unfoldable pub append_trace : JobState → JobState → Job → Job
append_trace from to job = add_trace (state_transition from to) job

-- The `ValueError` that `transition` raises.
abbrev pub value_error : IllegalTransition → Raised
value_error e = record { error_type = "ValueError"; message = illegal e.current e.target }

-- The assignments behind `job.state = transition(job.state, target)`: those of `f`, the trace
-- entry, and the save.
abbrev pub marked : (from to : JobState) → (Job → Job) → World → World
marked from to f w =
    save_checkpoint (with_job (λ job. append_trace from to (f (record job { state = to }))) w)

abbrev mark : JobState → (Job → Job) → Action (Unit {0})
mark target f w = elim (transition w.job.state target) [
  | ok new ↦ (ok tt, marked w.job.state target f w)
  | err e ↦ (err (raised (value_error e)), w)
]

-- The tokens are UUIDs: the n-th that is drawn is `token n`.
module _ (token : ℕ → String) where
  unfoldable pub issue_resume_token : World → World
  unfolding save_checkpoint
  issue_resume_token w =
      let job = w.job in
      save_checkpoint (record w {
        job = record job { resume_token = some (token w.tokens) };
        tokens = suc w.tokens;
      })

  unfoldable pub mark_succeeded : JobResult → Action (Unit {0})
  unfolding transition append_trace save_checkpoint issue_resume_token
  mark_succeeded r =
      mark succeeded (λ job. record job { result = some r }) >> modify issue_resume_token

  unfoldable pub mark_failed : Raised → Action (Unit {0})
  unfolding transition append_trace save_checkpoint issue_resume_token
  mark_failed e =
      mark failed (λ job. record job { result = some (error e) }) >> modify issue_resume_token

unfoldable pub mark_running : Action (Unit {0})
unfolding transition append_trace save_checkpoint
mark_running = mark running (λ job. job)

unfoldable pub mark_poison : ℕ → Action (Unit {0})
unfolding transition append_trace save_checkpoint
mark_poison max_failures = mark poison (λ job. record job { result = some (poisoned max_failures) })

abbrev with_context : Option ExecutionContext → ExecutionContext
with_context none = fresh_context
with_context (some c) = c

unfoldable pub append_cycle_trace : CycleEvent → World → World
unfolding save_checkpoint
append_cycle_trace e w =
    let job = w.job in
    let c = with_context job.execution_context in
    let c' = record c { cycle_trace = c.cycle_trace ++ e ∷ [] } in
    save_checkpoint (record w { job = record job { execution_context = some c' } })

unfoldable pub register_job : Action (Unit {0})
unfolding save_checkpoint
register_job w =
    let job = w.job in
    if is_pending job.state
    then (
      ok tt,
      save_checkpoint (record w {
        job = record job { execution_context = some (with_context job.execution_context) };
      }),
    )
    else throw (raised (record { error_type = "ValueError"; message = cannot_register job.state }))
        w
