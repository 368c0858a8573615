-- ===== src/Worker/ShortCircuit.antt =====
-- The stages of a crashed job on a worker that is not degraded: one crash is over the threshold.
use vai_core.Prelude.{
  ℕ, ◌≤◌, Bool, true, false, Option, none, some, List, [], ◌∷◌, String, Result, ok, err, ◌≡◌, ◌≢◌,
  refl, subst, arith, if◌then◌else◌,
}
use vai_core.Prelude.Dict.{get, get-put_self}
use vai_core.Jobs.State.{running, succeeded}
use vai_core.Jobs.Job.{Job, ExecutionContext, Reason, Fallback, fallback, worker_degraded}
use vai_core.Jobs.Action.{World, Failure, and_then}
use vai_core.Jobs.ControlPlane.{append_lifecycle_event, save_checkpoint, mark_succeeded}
use vai_core.Recovery
use vai_core.Safety.DegradedMode.{
  DegradedContext, default_degraded_mode, find_reason, evaluate, enter, build_detail,
  build_recovery_hint, or_else,
}
use vai_core.Retry.Policy.{default_retry_rules}
use vai_core.Pipeline.{Stage, unless, run}
use vai_core.Pipeline.Execution.{execution_stage}
use vai_core.Pipeline.Stages.{
  crash_recovery_stage, idempotency_stage, context_of, by_flag, finish_with, enter_degraded,
  degraded_mode_stage,
}
use vai_core.Pipeline.Execution.Rounds.{Saved}
use vai_core.Worker.{Setup, stages}

-- The default thresholds enter degraded mode after one crash.
find_reason-crash :
    (ctx : DegradedContext)
    → 1 ≤ ctx.crash_count
    → find_reason (default_degraded_mode "") ctx ≢ none
unfolding find_reason get
find_reason-crash ctx h = ground arith

-- The job is answered with a fallback, is saved as SUCCEEDED, and the worker is degraded.
abbrev pub ShortCircuited : ℕ → Result Failure Bool × World → Type 0
ShortCircuited calls (r, w) =
    (r ≡ ok true)
    × (w.job.state ≡ succeeded)
    × (w.degraded ≡ true)
    × (w.calls ≡ calls)
    × ((f : Fallback) × (w.job.result ≡ some (fallback f)))
    × Saved w

finish_with-ShortCircuited :
    (token : ℕ → String) (now : ℕ) (f : Fallback) (w : World)
    → w.job.state ≡ running
    → w.degraded ≡ true
    → ShortCircuited w.calls (finish_with token (default_degraded_mode "") now f w)
unfolding save_checkpoint mark_succeeded
finish_with-ShortCircuited token now f w run h =
    rw (run, mark_succeeded) (refl, refl, h, refl, (f, refl), get-put_self _ _ _)

entered-ShortCircuited :
    (token : ℕ → String) (now : ℕ) (w : World) (ctx : DegradedContext) (o : Option Reason)
    → o ≢ none
    → w.job.state ≡ running
    → let d = enter (default_degraded_mode "") ctx o in
      ShortCircuited w.calls (
        if d.enter_degraded
        then enter_degraded token (default_degraded_mode "") now d w
        else (ok false, w))
unfolding enter_degraded append_lifecycle_event
entered-ShortCircuited token now w ctx none h run = absurd (h refl)
entered-ShortCircuited token now w ctx (some r) h run =
    let f : Fallback = record {
      reason = r;
      detail = build_detail r ctx;
      job_id = ctx.job_id;
      recovery_hint = build_recovery_hint (default_degraded_mode "") r;
    } in
    finish_with-ShortCircuited token now f
      (append_lifecycle_event (worker_degraded (or_else "" ctx.worker_id) ctx.job_id r)
        (record w { degraded = true; job = record w.job { result = some (fallback f) } }))
      run refl

by_flag-ShortCircuited :
    (token : ℕ → String) (now : ℕ) (w : World) (flag : Bool)
    → flag ≡ false
    → w.job.state ≡ running
    → 1 ≤ w.job.crash_count
    → ShortCircuited w.calls (by_flag token (default_degraded_mode "") now flag none w)
unfolding evaluate
by_flag-ShortCircuited token now w true no_flag run crashed = absurd (cc no_flag)
by_flag-ShortCircuited token now w false no_flag run crashed =
    let ctx = context_of token (default_degraded_mode "") now none false w.job in
    entered-ShortCircuited token now w ctx (find_reason (default_degraded_mode "") ctx)
      (find_reason-crash ctx crashed) run

-- What the two stages before leave of a RUNNING job with a checkpoint.
Crashed : ℕ → World → Type 0
Crashed calls w =
    (w.job.state ≡ running) × (1 ≤ w.job.crash_count) × (w.degraded ≡ false) × (w.calls ≡ calls)

crash_recovery_stage-Crashed :
    (token : ℕ → String) (c : ExecutionContext) (w : World)
    → w.job.state ≡ running
    → w.job.execution_context ≡ some c
    → w.degraded ≡ false
    → let r = crash_recovery_stage token w in (r.0 ≡ ok false) × Crashed w.calls r.1
unfolding crash_recovery_stage Recovery.evaluate append_lifecycle_event Crashed
crash_recovery_stage-Crashed token c w run checkpoint healthy = ground arith

idempotency_stage-Crashed :
    (stored : Option Job) (calls : ℕ) (w : World)
    → Crashed calls w
    → let r = idempotency_stage stored w in (r.0 ≡ ok false) × Crashed calls r.1
unfolding idempotency_stage append_lifecycle_event Crashed
idempotency_stage-Crashed stored calls w h = ground arith

continue-ShortCircuited :
    (stages : List Stage) (calls : ℕ) (p : Result Failure Bool × World)
    → p.0 ≡ ok false
    → ShortCircuited calls (run stages p.1)
    → ShortCircuited calls (and_then p.0 (λ stop. unless stop (run stages)) p.1)
continue-ShortCircuited stages calls (ok true, w) e h = absurd (cc e)
continue-ShortCircuited stages calls (ok false, w) e h = h
continue-ShortCircuited stages calls (err f, w) e h = absurd (cc e)

stop-ShortCircuited :
    (stages : List Stage) (calls : ℕ) (p : Result Failure Bool × World)
    → ShortCircuited calls p
    → ShortCircuited calls (and_then p.0 (λ stop. unless stop (run stages)) p.1)
stop-ShortCircuited stages calls (ok true, w) h = h
stop-ShortCircuited stages calls (ok false, w) h = absurd (cc h.0)
stop-ShortCircuited stages calls (err e, w) h = absurd (cc h.0)

module _ (s : Setup) (stored : Option Job) (c : ExecutionContext) (w : World) where
  pub run-stages-ShortCircuited :
      w.job.state ≡ running
      → w.job.execution_context ≡ some c
      → w.degraded ≡ false
      → ShortCircuited w.calls (run (stages s stored) w)
  unfolding run Crashed degraded_mode_stage
  run-stages-ShortCircuited st ctx healthy =
      let execution = execution_stage s.token s.executor default_retry_rules s.fuel ∷ [] in
      let degraded = degraded_mode_stage s.token (default_degraded_mode "") s.now none in
      let first = crash_recovery_stage s.token w in
      let (goes_on, crashed) = crash_recovery_stage-Crashed s.token c w st ctx healthy in
      let second = idempotency_stage stored first.1 in
      let (goes_on', (run', many, flag, calls)) =
        idempotency_stage-Crashed stored w.calls first.1 crashed in
      continue-ShortCircuited (idempotency_stage stored ∷ degraded ∷ execution) w.calls first
        goes_on
        (continue-ShortCircuited (degraded ∷ execution) w.calls second goes_on' (
          stop-ShortCircuited execution w.calls (degraded second.1) (
            subst (λ k. ShortCircuited k (degraded second.1)) calls
              (by_flag-ShortCircuited s.token s.now second.1 second.1.degraded flag run' many))))
