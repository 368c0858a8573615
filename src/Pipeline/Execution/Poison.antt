-- ===== src/Pipeline/Execution/Poison.antt =====
-- Where the poison detector can fire.
use vai_core.Prelude.{
  ℕ, zero, suc, ◌≤◌, ◌<◌, Bool, true, false, String, ◌≡◌, ◌≢◌, refl, ◌∙◌, err, ok, arith, Result,
}
use vai_core.Jobs.State.{running, poison}
use vai_core.Jobs.Job.{Output, cycle_start}
use vai_core.Jobs.Action.{World, Action, Failure, and_then, pure}
use vai_core.Jobs.ControlPlane.{append_cycle_trace}
use vai_core.Retry.Policy.{default_retry_rules}
use vai_core.Retry.Wrapper.{Attempt, returned, retry, poisonous, Guarded, value, panic}
use vai_core.Pipeline.Execution.{
  Executor, get_or, run_cycle, on_retry, on_success, unless_done, after_cycle, execution_loop,
  execution_stage,
}
use vai_core.Pipeline.Execution.Rounds.{
  on_panic-state, complete-state, run_cycle-retry, run_cycle-poisonous, on_retry-keeps,
  on_success-keeps, append_cycle_trace-keeps,
}

abbrev NotPoison : Result Failure (Unit {0}) × World → Type 0
NotPoison r = r.1.job.state ≢ poison

-- The job's failures since its last success are fewer than the attempts.
abbrev Next : (ℕ → Action (Unit {0})) → Type 0
Next again =
    (attempt : ℕ) (w : World)
    → w.job.state ≡ running
    → w.job.failure_count < attempt
    → attempt ≤ 5
    → NotPoison (again attempt w)

module _ (token : ℕ → String) (executor : Executor) where
  unless_done-NotPoison :
      (again : ℕ → Action (Unit {0}))
      → Next again
      → (o : Output) (w : World) (done : Bool) → w.job.state ≡ running
      → w.job.failure_count ≡ 0
      → NotPoison (unless_done token done o (again 1) w)
  unless_done-NotPoison again next o w true run none = λ h. cc (complete-state token o w run)
  unless_done-NotPoison again next o w false run none = next 1 w run (omega arith) (omega arith)

  after_cycle-NotPoison :
      (again : ℕ → Action (Unit {0}))
      → Next again
      → (attempt : ℕ) (w : World) (g : Guarded (Attempt Output))
      → run_cycle executor default_retry_rules attempt w ≡ g
      → w.job.state ≡ running
      → w.job.failure_count < attempt
      → attempt ≤ 5
      → NotPoison (after_cycle token again g (record w { calls = suc w.calls }))
  unfolding after_cycle
  after_cycle-NotPoison again next attempt w (panic e) eq run lt few =
      λ h. cc (on_panic-state token e (record w { calls = suc w.calls }) run)
  after_cycle-NotPoison again next attempt w (value (poisonous m)) eq run lt few =
      absurd (omega (arith, (run_cycle-poisonous executor attempt w eq).1))
  after_cycle-NotPoison again next attempt w (value (retry d k)) eq run lt few =
      let w' = record w { calls = suc w.calls } in
      let (one_more, at_most) = run_cycle-retry executor attempt w eq in
      let (state, _, failures) = on_retry-keeps token d k w' in
      next k (on_retry token d k w') (state ∙ run) (rw (failures, one_more) (omega arith)) at_most
  after_cycle-NotPoison again next attempt w (value (returned o)) eq run lt few =
      let w' = record w { calls = suc w.calls } in
      let (state, _, failures) = on_success-keeps token o w' in
      unless_done-NotPoison again next o (on_success token o w') (get_or o.done false) (state ∙ run)
        failures

  execution_loop-NotPoison :
      (fuel : ℕ) → Next (execution_loop token executor default_retry_rules fuel)
  unfolding execution_loop
  execution_loop-NotPoison zero attempt w run lt few = λ h. cc
  execution_loop-NotPoison (suc fuel) attempt w run lt few =
      let (state, _, failures) = append_cycle_trace-keeps cycle_start w in
      after_cycle-NotPoison (execution_loop token executor default_retry_rules fuel)
        (execution_loop-NotPoison fuel) attempt (append_cycle_trace cycle_start w) _ refl
        (state ∙ run) (rw failures lt) few

and_pure-world :
    (p : Result Failure (Unit {0}) × World) → (and_then p.0 (λ _. pure true) p.1).1 ≡ p.1
and_pure-world (ok a, w) = refl
and_pure-world (err e, w) = refl

-- Under the default policy and detector the execution stage never marks a RUNNING job POISON that
-- comes in with no failure counted, whatever its executor does and however long it runs.
pub execution_stage-ne-poison :
    (token : ℕ → String) (executor : Executor) (fuel : ℕ) (w : World)
    → w.job.state ≡ running
    → w.job.failure_count ≡ 0
    → (execution_stage token executor default_retry_rules fuel w).1.job.state ≢ poison
unfolding execution_stage
execution_stage-ne-poison token executor fuel w run none =
    rw (and_pure-world (execution_loop token executor default_retry_rules fuel 1 w))
      (execution_loop-NotPoison token executor fuel 1 w run (omega arith) (omega arith))
