-- ===== src/Worker/Fresh.antt =====
-- What `process_next` does with a fresh job.
use vai_core.Prelude.{
  ℕ, ◌+◌, ◌≤◌, Bool, true, false, Option, none, some, List, [], ◌∷◌, Result, ok, err, ◌≡◌, ◌≢◌,
  refl, ◌∙◌, subst,
}
use vai_core.Prelude.Dict.{Dict, get}
use vai_core.Jobs.State.{pending, running, poison}
use vai_core.Jobs.Job.{Job, hydrate_execution_context}
use vai_core.Jobs.Action.{World, Failure, and_then}
use vai_core.Jobs.ControlPlane.{append_lifecycle_event}
use vai_core.Retry.Policy.{default_retry_rules}
use vai_core.Safety.DegradedMode.{default_degraded_mode}
use vai_core.Queue.{Queue, pop, pop_items}
use vai_core.Pipeline.{Stage, unless, run}
use vai_core.Pipeline.Stages.{crash_recovery_stage, idempotency_stage, degraded_mode_stage}
use vai_core.Pipeline.Execution.{Executor, execution_stage}
use vai_core.Pipeline.Execution.Rounds.{Ended, Saved, IsSame}
use vai_core.Pipeline.Execution.Termination.{Finishes, execution_stage-Ends}
use vai_core.Pipeline.Execution.Poison.{execution_stage-ne-poison}
use vai_core.Worker.{
  Worker, Setup, Processed, processed, on_crash, caught, stages, run_on, run_pipeline,
  route_response, world_of, hydrate, handle, skip_of, finish, process_popped, process_next,
}
use vai_core.Worker.Preflight.{
  IsHealthy, Started, crash_recovery_stage-Started, idempotency_stage-Started, by_flag-healthy,
}

-- The pipeline has run the job to its end, within `most` executor calls.
abbrev Done : Executor → Job → (start most : ℕ) → Result Failure Bool × World → Type 0
Done executor job start most (r, w) =
    (r ≡ ok true)
    × Ended executor start w
    × IsSame job w.job
    × (w.job.state ≢ poison)
    × Saved w
    × (w.calls ≤ most)

continue-Done :
    (executor : Executor) (job : Job) (stages : List Stage) (start most : ℕ)
    (p : Result Failure Bool × World)
    → p.0 ≡ ok false
    → Done executor job start most (run stages p.1)
    → Done executor job start most (and_then p.0 (λ stop. unless stop (run stages)) p.1)
continue-Done executor job stages start most (ok true, w) e h = absurd (cc e)
continue-Done executor job stages start most (ok false, w) e h = h
continue-Done executor job stages start most (err f, w) e h = absurd (cc e)

stop-Done :
    (executor : Executor) (job : Job) (stages : List Stage) (start most : ℕ)
    (p : Result Failure Bool × World)
    → Done executor job start most p
    → Done executor job start most (and_then p.0 (λ stop. unless stop (run stages)) p.1)
stop-Done executor job stages start most (ok true, w) h = h
stop-Done executor job stages start most (ok false, w) h = absurd (cc h.0)
stop-Done executor job stages start most (err e, w) h = absurd (cc h.0)

module _ (s : Setup) (job : Job) (n : ℕ) (finishes : Finishes s.executor n) where
  execution-Done :
      (w : World)
      → w.job.state ≡ running
      → w.job.failure_count ≡ 0
      → IsSame job w.job
      → w.calls ≤ n
      → n + 5 ≤ w.calls + s.fuel
      → Done s.executor job w.calls
          (n + 5)
          (execution_stage s.token s.executor default_retry_rules s.fuel w)
  execution-Done w state none_failed same ahead enough =
      let (done, ended, kept, saved, few) =
        execution_stage-Ends s.token s.executor n s.fuel w finishes state ahead enough in
      (
        done,
        ended,
        (kept.0 ∙ same.0, kept.1 ∙ same.1),
        execution_stage-ne-poison s.token s.executor s.fuel w state none_failed,
        saved,
        few,
      )

  run-stages-Done :
      (stored : Option Job) (w : World)
      → w.job ≡ job
      → w.job.state ≡ pending
      → IsHealthy w.job
      → w.degraded ≡ false
      → w.calls ≤ n
      → n + 5 ≤ w.calls + s.fuel
      → Done s.executor job w.calls (n + 5) (run (stages s stored) w)
  unfolding run Started degraded_mode_stage
  run-stages-Done stored w taken st health flag ahead enough =
      let last = execution_stage s.token s.executor default_retry_rules s.fuel in
      let degraded = degraded_mode_stage s.token (default_degraded_mode "") s.now none in
      let first = crash_recovery_stage s.token w in
      let (goes_on, started) = crash_recovery_stage-Started s.token w st health flag in
      let second = idempotency_stage stored first.1 in
      let (goes_on', (run', health', flag', calls, same)) =
        idempotency_stage-Started stored w.job w.calls first.1 started in
      let pass = by_flag-healthy s.token s.now second.1 second.1.degraded flag' health' in
      let finish =
        subst (λ k. Done s.executor job k (n + 5) (last second.1)) calls
          (execution-Done second.1 run' health'.0 (subst (λ j. IsSame j second.1.job) taken same)
            (rw calls ahead) (rw calls enough)) in
      continue-Done s.executor job (idempotency_stage stored ∷ degraded ∷ last ∷ []) w.calls (n + 5)
        first goes_on
        (continue-Done s.executor job (degraded ∷ last ∷ []) w.calls (n + 5) second goes_on'
          (rw pass (stop-Done s.executor job [] w.calls (n + 5) (last second.1) finish)))

-- What `process_next` gives for the job that it popped and runs to its end: the same job, ended by
-- the executor's last call, and stored.
abbrev pub Completed :
    (s : Setup) → Job → (start most : ℕ) → Result Failure Processed × Worker → Type 0
Completed s popped start most (r, w) =
    (job : Job) × (r ≡ ok (processed job (route_response s job)))
    × IsSame popped job
    × Ended s.executor start (world_of w job)
    × (job.state ≢ poison)
    × (get w.store job.job_id ≡ some job)
    × (w.calls ≤ most)

caught-Done :
    (s : Setup) (job : Job) (start most : ℕ) (p : Result Failure Bool × World)
    → Done s.executor job start most p
    → Done s.executor job start most (caught (on_crash s) p)
caught-Done s job start most (ok b, w) h = h
caught-Done s job start most (err e, w) h = absurd (cc h.0)

finish-Completed :
    (s : Setup) (job : Job) (q : Queue Job) (start most : ℕ) (p : Result Failure Bool × World)
    → Done s.executor job start most p
    → Completed s job start most (finish s q p)
finish-Completed s job q start most (err e, w) h = absurd (cc h.0)
finish-Completed s job q start most (ok b, w) (e, ended, same, clean, saved, few) =
    (w.job, refl, same, ended, clean, saved, few)

module _ (s : Setup) (w : Worker) (job : Job) (rest : List Job) (start most : ℕ) where
  handle-Completed :
      (q : Queue Job) (stored dead : Option Job)
      → dead ≡ none
      → Done s.executor job start most (run_on s w stored job)
      → Completed s job start most (handle s w q job stored dead)
  handle-Completed q stored dead alive done =
      rw alive (finish-Completed s job q start most (run_on s w stored job) done)

  process_popped-Completed :
      (items : List Job) (leased : Dict Job)
      → items ≡ job ∷ rest
      → skip_of (get w.store job.job_id) ≡ none
      → Done s.executor job start most (run_on s w (get w.store job.job_id) job)
      → Completed s job start most (process_popped s w (pop_items (λ j. j.job_id) items leased))
  process_popped-Completed items leased head alive done =
      rw head
        (handle-Completed _ (get w.store job.job_id) (skip_of (get w.store job.job_id)) alive done)

hydrate-IsSame : (stored : Option Job) (job : Job) → IsSame job (hydrate stored job)
hydrate-IsSame none job = (refl, refl)
hydrate-IsSame (some stored) job = (refl, refl)

hydrate-state : (stored : Option Job) (job : Job) → (hydrate stored job).state ≡ job.state
hydrate-state none job = refl
hydrate-state (some stored) job = refl

run_on-Done :
    (s : Setup) (w : Worker) (stored : Option Job) (job : Job) (n : ℕ)
    → Finishes s.executor n
    → job.state ≡ pending
    → IsHealthy (hydrate stored job)
    → w.degraded ≡ false
    → w.calls ≤ n
    → n + 5 ≤ w.calls + s.fuel
    → Done s.executor job w.calls (n + 5) (run_on s w stored job)
unfolding run_on run_pipeline append_lifecycle_event
run_on-Done s w stored job n finishes state health flag ahead enough =
    let start =
      append_lifecycle_event hydrate_execution_context (world_of w (hydrate stored job)) in
    let same = hydrate-IsSame stored job in
    caught-Done s job w.calls (n + 5) (run (stages s stored) start) (
      of_hydrated same (run (stages s stored) start) (
        run-stages-Done s start.job n finishes stored start refl (hydrate-state stored job ∙ state)
          health flag ahead enough))
  where
    of_hydrated :
        IsSame job (hydrate stored job)
        → (p : Result Failure Bool × World) → Done s.executor (hydrate stored job) w.calls (n + 5) p
        → Done s.executor job w.calls (n + 5) p
    of_hydrated same (r, w') (e, ended, kept, clean, saved, few) =
        (e, ended, (kept.0 ∙ same.0, kept.1 ∙ same.1), clean, saved, few)

-- A worker that is not degraded pops a PENDING job, which is healthy once it is hydrated from the
-- store and which the store does not hold as FAILED or POISON. If from its n-th call on the
-- executor raises or says that it is done, and the fuel covers the calls up to there and five
-- more, then `process_next` calls it at least once, on the job's payload the last time, and at most
-- five times from the n-th call on; and it returns that job, under its id and with its payload. The
-- job has SUCCEEDED with just the output that the last call returned and that says that it is done,
-- or FAILED with just the error that the last call raised, never POISON; and the store holds it as it
-- is returned.
pub process_next-Completed :
    (s : Setup) (w : Worker) (job : Job) (rest : List Job) (n : ℕ)
    → Finishes s.executor n
    → w.queue.items ≡ job ∷ rest
    → skip_of (get w.store job.job_id) ≡ none
    → job.state ≡ pending
    → IsHealthy (hydrate (get w.store job.job_id) job)
    → w.degraded ≡ false
    → w.calls ≤ n
    → n + 5 ≤ w.calls + s.fuel
    → Completed s job w.calls (n + 5) (process_next s w)
unfolding process_next pop
process_next-Completed s w job rest n finishes head alive state health flag ahead enough =
    process_popped-Completed s w job rest w.calls (n + 5) w.queue.items w.queue.in_flight head alive
      (run_on-Done s w (get w.store job.job_id) job n finishes state health flag ahead enough)
