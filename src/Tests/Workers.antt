-- ===== src/Tests/Workers.antt =====
-- The theorems on the worker and its pipeline, at small runs.
use vai_core.Prelude.{
  ℕ, ◌≤◌, Bool, true, false, some, [], ◌∷◌, Result, ok, err, ◌≡◌, ◌≢◌, refl, if◌then◌else◌, ltb,
  arith, sym, ap, ◌∙◌,
}
use vai_core.Prelude.Dict.{get}
use vai_core.Jobs.State.{running, poison}
use vai_core.Jobs.Job.{Job, Output, Raised, fresh_context}
use vai_core.Jobs.Action.{World}
use vai_core.Retry.Policy.{default_retry_rules}
use vai_core.Pipeline.Execution.{execution_stage, get_or}
use vai_core.Pipeline.Execution.Rounds.{Ended, Saved, IsSame}
use vai_core.Pipeline.Execution.Termination.{Finishes, execution_stage-Ends}
use vai_core.Pipeline.Execution.Poison.{execution_stage-ne-poison}
use vai_core.Worker.{Worker, process_next}
use vai_core.Worker.Fresh.{Completed, process_next-Completed}
use vai_core.Worker.Recovered.{Answered, process_next-recovered}
use vai_core.Worker.Degraded.{process_next-degraded}
use vai_core.Worker.Lease.{process_next-lease}
use vai_core.Tests.Platform.{flaky, setup, first, start, answer, rate_limited, program}

output_done : Result Raised Output → Bool
output_done (ok o) = get_or o.done false
output_done (err e) = true

abbrev outcome : Bool → Result Raised Output
outcome failing = if failing then err rate_limited else ok answer

outcome-done : (failing : Bool) → output_done (outcome failing) ≡ true
unfolding output_done
outcome-done true = refl
outcome-done false = refl

flaky-Finishes : (m : ℕ) → Finishes (flaky m) 0
unfolding output_done
flaky-Finishes m k c o le e = sym (ap output_done e) ∙ outcome-done (ltb k m)

abbrev live : World
live = record {
  job = record first { state = running };
  store = [];
  tokens = 0;
  calls = 0;
  degraded = false;
}

-- A job that a crash left running.
abbrev crashed : Job
crashed = record first { state = running; execution_context = some fresh_context }

abbrev after_crash : Worker
after_crash = record start {
  queue = record { items = crashed ∷ []; in_flight = [] };
  store = ("job-1", crashed) ∷ [];
}

process_next-Completed_example : Completed (setup 4) first 0 5 (process_next (setup 4) start)
unfolding program
process_next-Completed_example =
    process_next-Completed (setup 4) start first [] 0 (flaky-Finishes 4) refl refl refl
      (refl, omega arith, refl, refl) refl (omega arith) (omega arith)

execution_stage-Ends_example :
    let (r, w') = execution_stage (λ k. "token") (flaky 3) default_retry_rules 20 live in
    (r ≡ ok true) × Ended (flaky 3) 0 w' × IsSame live.job w'.job × Saved w' × (w'.calls ≤ 5)
unfolding program
execution_stage-Ends_example =
    execution_stage-Ends (λ k. "token") (flaky 3) 0 20 live (flaky-Finishes 3) refl (omega arith)
      (omega arith)

execution_stage-ne-poison_example :
    (execution_stage (λ k. "token") (flaky 9) default_retry_rules 20 live).1.job.state ≢ poison
unfolding program
execution_stage-ne-poison_example =
    execution_stage-ne-poison (λ k. "token") (flaky 9) 20 live refl refl

process_next-recovered_example : Answered 0 (process_next (setup 0) after_crash)
unfolding program
process_next-recovered_example =
    process_next-recovered (setup 0) after_crash crashed crashed fresh_context [] refl refl refl
      refl refl refl

process_next-degraded_example :
    ((process_next (setup 0) (record start { degraded = true })).1.degraded ≡ true)
    × ((process_next (setup 0) (record start { degraded = true })).1.calls ≡ 0)
unfolding program
process_next-degraded_example =
    process_next-degraded (setup 0) (record start { degraded = true }) refl

process_next-lease_example :
    let q = (process_next (setup 5) start).1.queue in
    (q.items ≡ []) × (get q.in_flight "job-1" ≡ some first)
unfolding program
process_next-lease_example = process_next-lease (setup 5) start first [] refl
