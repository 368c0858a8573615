-- ===== src/Worker/Degraded.antt =====
-- A worker in degraded mode, and a job that is recovered from a crash.
use vai_core.Prelude.{
  ℕ, Bool, true, false, Option, none, some, List, [], ◌∷◌, String, Result, ok, err, ◌≡◌, refl, ◌⊎◌,
  ◌∙◌, arith,
}
use vai_core.Prelude.Dict.{get}
use vai_core.Jobs.Job.{Job, JobResult, Raised, Fallback, fallback, hydrate_execution_context}
use vai_core.Jobs.Action.{World, Action, Failure, raised, no_fuel, and_then, with_job}
use vai_core.Jobs.ControlPlane.{
  append_lifecycle_event, save_checkpoint, issue_resume_token, mark_running, mark_succeeded,
  mark_failed,
}
use vai_core.Safety.DegradedMode.{default_degraded_mode, check_recovery}
use vai_core.Pipeline.{Stage, unless, run}
use vai_core.Pipeline.Stages.{
  crash_recovery_stage, idempotency_stage, finish_with, by_flag, handle_degraded_cycle,
  degraded_mode_stage,
}
use vai_core.Pipeline.Execution.{execution_stage}
use vai_core.Retry.Policy.{default_retry_rules}
use vai_core.Queue.{Queue, pop}
use vai_core.Worker.{
  Worker, Setup, Processed, on_crash, caught, stages, run_on, run_pipeline, world_of, hydrate,
  handle, skip_of, finish, process_popped, process_next,
}

-- The executor was not called and the flag is as it was.
abbrev Quiet : {A : Type 0} → World → Result Failure A × World → Type 0
Quiet w r = (r.1.degraded ≡ w.degraded) × (r.1.calls ≡ w.calls)

mark_running-Quiet : (w : World) → Quiet w (mark_running w)
unfolding mark_running
mark_running-Quiet w = ground arith

mark_failed-Quiet : (token : ℕ → String) (e : Raised) (w : World) → Quiet w (mark_failed token e w)
unfolding mark_failed
mark_failed-Quiet token e w = ground arith

mark_succeeded-Quiet :
    (token : ℕ → String) (r : JobResult) (w : World) → Quiet w (mark_succeeded token r w)
unfolding mark_succeeded
mark_succeeded-Quiet token r w = ground arith

crash_recovery_stage-Quiet :
    (token : ℕ → String) (w : World) → Quiet w (crash_recovery_stage token w)
unfolding crash_recovery_stage append_lifecycle_event issue_resume_token
crash_recovery_stage-Quiet token w =
    ground (arith, mark_running-Quiet w, mark_running-Quiet (issue_resume_token token w))

idempotency_stage-Quiet : (stored : Option Job) (w : World) → Quiet w (idempotency_stage stored w)
unfolding idempotency_stage append_lifecycle_event
idempotency_stage-Quiet stored w = ground arith

-- The stage ends the pipeline, or the state does not allow SUCCEEDED.
abbrev Stops : Result Failure Bool → Type 0
Stops r = (r ≡ ok true) ⊎ ((e : Failure) × (r ≡ err e))

finish_with-Quiet :
    (token : ℕ → String) (now : ℕ) (f : Fallback) (w : World)
    → let r = finish_with token (default_degraded_mode "") now f w in Quiet w r × Stops r.0
unfolding save_checkpoint
finish_with-Quiet token now f w = ground (
  arith,
  mark_succeeded-Quiet token (fallback f)
      (with_job (λ j. record j { result = some (fallback f) }) w),
)

-- With no signals a degraded worker stays degraded.
by_flag-Quiet :
    (token : ℕ → String) (now : ℕ) (w : World) (flag : Bool)
    → flag ≡ true
    → let r = by_flag token (default_degraded_mode "") now flag none w in Quiet w r × Stops r.0
unfolding handle_degraded_cycle check_recovery
by_flag-Quiet token now w true h = finish_with-Quiet token now _ w
by_flag-Quiet token now w false h = absurd (cc h)

degraded_mode_stage-Quiet :
    (token : ℕ → String) (now : ℕ) (w : World)
    → w.degraded ≡ true
    → let r = degraded_mode_stage token (default_degraded_mode "") now none w in
      Quiet w r × Stops r.0
unfolding degraded_mode_stage
degraded_mode_stage-Quiet token now w h = by_flag-Quiet token now w w.degraded h

on_crash-Quiet : (s : Setup) (e : Raised) (w : World) → Quiet w (on_crash s e w)
unfolding on_crash save_checkpoint
on_crash-Quiet s e w = ground (
  arith,
  mark_running-Quiet w,
  mark_failed-Quiet s.token e (mark_running w).1,
  mark_failed-Quiet s.token e w,
)

-- Runs of the pipeline that stay degraded and call no executor.
abbrev Keeps : Action Bool → Type 0
Keeps m = (w : World) → w.degraded ≡ true → Quiet w (m w)

continue-Quiet :
    (stages : List Stage) (w : World) (p : Result Failure Bool × World)
    → Quiet w p
    → w.degraded ≡ true
    → Keeps (run stages)
    → Quiet w (and_then p.0 (λ stop. unless stop (run stages)) p.1)
continue-Quiet stages w (ok true, w') q h rest = q
continue-Quiet stages w (ok false, w') q h rest =
    let (same, calls) = rest w' (q.0 ∙ h) in (same ∙ q.0, calls ∙ q.1)
continue-Quiet stages w (err e, w') q h rest = q

run-Keeps :
    (stage : Stage) (stages : List Stage)
    → Keeps stage
    → Keeps (run stages)
    → Keeps (run (stage ∷ stages))
unfolding run
run-Keeps stage stages first rest w h = continue-Quiet stages w (stage w) (first w h) h rest

stop-Quiet :
    (stages : List Stage) (w : World) (p : Result Failure Bool × World)
    → Quiet w p × Stops p.0
    → Quiet w (and_then p.0 (λ stop. unless stop (run stages)) p.1)
stop-Quiet stages w (ok true, w') q = q.0
stop-Quiet stages w (ok false, w') q = absurd (ground (arith, q.1))
stop-Quiet stages w (err e, w') q = q.0

run-stages-Keeps : (s : Setup) (stored : Option Job) → Keeps (run (stages s stored))
unfolding run
run-stages-Keeps s stored =
    let execution = execution_stage s.token s.executor default_retry_rules s.fuel ∷ [] in
    let degraded = degraded_mode_stage s.token (default_degraded_mode "") s.now none in
    run-Keeps (crash_recovery_stage s.token) (idempotency_stage stored ∷ degraded ∷ execution)
      (λ w h. crash_recovery_stage-Quiet s.token w)
      (run-Keeps (idempotency_stage stored) (degraded ∷ execution)
        (λ w h. idempotency_stage-Quiet stored w)
        (λ w h. stop-Quiet execution w (degraded w) (degraded_mode_stage-Quiet s.token s.now w h)))

caught-Quiet :
    (s : Setup) (w : World) (p : Result Failure Bool × World)
    → Quiet w p
    → Quiet w (caught (on_crash s) p)
caught-Quiet s w (ok a, w') q = q
caught-Quiet s w (err (raised e), w') q =
    let (same, calls) = on_crash-Quiet s e w' in (same ∙ q.0, calls ∙ q.1)
caught-Quiet s w (err no_fuel, w') q = q

run_on-Quiet :
    (s : Setup) (w : Worker) (stored : Option Job) (job : Job)
    → w.degraded ≡ true
    → ((run_on s w stored job).1.degraded ≡ true) × ((run_on s w stored job).1.calls ≡ w.calls)
unfolding run_on run_pipeline append_lifecycle_event
run_on-Quiet s w stored job h =
    let start =
      append_lifecycle_event hydrate_execution_context (world_of w (hydrate stored job)) in
    let (same, calls) =
      caught-Quiet s start (run (stages s stored) start) (run-stages-Keeps s stored start h) in
    (same ∙ h, calls)

module _ (s : Setup) (w : Worker) (h : w.degraded ≡ true) where
  abbrev Still : Result Failure Processed × Worker → Type 0
  Still r = (r.1.degraded ≡ true) × (r.1.calls ≡ w.calls)

  finish-Still :
      (q : Queue Job) (r : Result Failure Bool × World)
      → (r.1.degraded ≡ true) × (r.1.calls ≡ w.calls)
      → Still (finish s q r)
  finish-Still q (ok b, w') k = k
  finish-Still q (err e, w') k = k

  process_popped-Still : (p : Option Job × Queue Job) → Still (process_popped s w p)
  process_popped-Still (none, q) = (h, refl)
  process_popped-Still (some job, q) = handle-Still (skip_of (get w.store job.job_id))
    where
      handle-Still : (dead : Option Job) → Still (handle s w q job (get w.store job.job_id) dead)
      handle-Still (some d) = (h, refl)
      handle-Still none = finish-Still q _ (run_on-Quiet s w (get w.store job.job_id) job h)

-- Once a worker is degraded it stays so, and never calls its executor again: each later call of
-- `process_next` leaves the flag set and the number of executor calls as it was, whatever it pops.
pub process_next-degraded :
    (s : Setup) (w : Worker)
    → w.degraded ≡ true
    → ((process_next s w).1.degraded ≡ true) × ((process_next s w).1.calls ≡ w.calls)
unfolding process_next
process_next-degraded s w h = process_popped-Still s w h (pop (λ job. job.job_id) w.queue)
