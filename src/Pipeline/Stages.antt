-- ===== src/Pipeline/Stages.antt =====
-- The stages before execution (src/platform/runtime/pipeline/stages.py). Each mutates the worker's
-- job and returns `true` to hand it back at once.
use vai_core.Prelude.{ℕ, suc, Bool, true, false, Option, none, some, String, if◌then◌else◌}
use vai_core.Jobs.State.{JobState, poison}
use vai_core.Jobs.Job.{
  Job, Reason, still_degraded, unknown, awaiting_recovery, entered, waiting_for_signals,
  awaiting_signals, Fallback, fallback, crash_recovery, poison_skip, idempotency_recovery,
  worker_degraded, worker_recovered,
}
use vai_core.Jobs.Action.{World, Action, pure, modify, with_job, ◌>>◌}
use vai_core.Jobs.ControlPlane.{
  append_lifecycle_event, save_checkpoint, issue_resume_token, mark_running, mark_succeeded,
}
use vai_core.Recovery
use vai_core.Safety.DegradedMode.{
  SignalState, DegradedContext, DegradedEvent, RecoveredEvent, DegradedDecision, DegradedMode,
  check_recovery,
}
use vai_core.Safety.DegradedMode as Degraded

abbrev is_poisoned : JobState → Bool
is_poisoned poison = true
is_poisoned _ = false

abbrev is_none : Option String → Bool
is_none none = true
is_none (some _) = false

module _ (token : ℕ → String) where
  abbrev begin : Action Bool
  begin w =
      (modify (λ w. if is_none w.job.resume_token then issue_resume_token token w else w)
          >> (mark_running >> pure false))
        w

  -- `CrashRecoveryStage.evaluate`
  unfoldable pub crash_recovery_stage : Action Bool
  crash_recovery_stage w =
      let job = w.job in
      let decision = Recovery.evaluate job.execution_context job.resume_token job.state in
      if decision.should_recover
      then (modify (append_lifecycle_event crash_recovery)
            >> (modify (with_job (λ j. record j { crash_count = suc j.crash_count }))
                >> pure false))
          w
      else if is_poisoned job.state
      then (modify (append_lifecycle_event poison_skip) >> pure true) w
      else begin w

abbrev rehydrate : Job → Option String → World → World
rehydrate stored token w = append_lifecycle_event idempotency_recovery (
    with_job (λ j. record j { execution_context = stored.execution_context; resume_token = token })
      w)

abbrev check_token : Job → Option String → World → World
check_token stored none w = w
check_token stored (some t) w =
    if Recovery.validate_resume_token (some t) w.job.resume_token
    then w
    else rehydrate stored (some t) w

abbrev against_stored : Option Job → World → World
against_stored none w = w
against_stored (some stored) w = check_token stored stored.resume_token w

-- `IdempotencyStage.evaluate`
unfoldable pub idempotency_stage : (stored : Option Job) → Action Bool
idempotency_stage stored = modify (against_stored stored) >> pure false

module _ (token : ℕ → String) (mode : DegradedMode) (now : ℕ) where
  abbrev pub context_of : Option SignalState → Bool → Job → DegradedContext
  context_of signals degraded job = record {
    consecutive_failures = job.consecutive_failures;
    panic_count = job.panic_count;
    crash_count = job.crash_count;
    retry_exhausted = false;
    signal_state = signals;
    worker_id = mode.worker_id;
    job_id = job.job_id;
    in_degraded = degraded;
  }

  -- `job.result = r; cp.mark_succeeded(job, job.result); cp.save_checkpoint(job); return job`
  abbrev pub finish_with : Fallback → Action Bool
  finish_with f =
      modify (with_job (λ j. record j { result = some (fallback f) }))
      >> (mark_succeeded token (fallback f) >> (modify save_checkpoint >> pure true))

  abbrev reason_or : Reason → Option Reason → Reason
  reason_or r none = r
  reason_or r (some q) = q

  abbrev still : Option Reason → Job → Fallback
  still reason job = record {
    reason = reason_or still_degraded reason;
    detail = awaiting_recovery;
    job_id = job.job_id;
    recovery_hint = waiting_for_signals;
  }

  abbrev after_check : Bool → Option Reason → Option RecoveredEvent → Action Bool
  after_check false reason (some event) w =
      (modify (λ w. record w { degraded = false })
          >> (modify
                (append_lifecycle_event (worker_recovered event.worker_id event.stability_window))
              >> pure false))
        w
  after_check _ reason _ w = finish_with (still reason w.job) w

  -- `_handle_degraded_cycle`
  unfoldable pub handle_degraded_cycle : Option SignalState → Action Bool
  handle_degraded_cycle signals w =
      let decision = check_recovery mode now (context_of signals true w.job) in
      after_check decision.enter_degraded decision.reason decision.recovery_event w

  abbrev entry_fallback : Option Fallback → Option Reason → Job → Fallback
  entry_fallback (some f) reason job = f
  entry_fallback none reason job = record {
    reason = reason_or unknown reason;
    detail = entered;
    job_id = job.job_id;
    recovery_hint = awaiting_signals;
  }

  abbrev pub escalate : Option DegradedEvent → World → World
  escalate none w = w
  escalate (some e) w = append_lifecycle_event (worker_degraded e.worker_id e.job_id e.reason) w

  -- `_enter_degraded`
  unfoldable pub enter_degraded : DegradedDecision → Action Bool
  enter_degraded decision w =
      let f = entry_fallback decision.fallback_output decision.reason w.job in
      (modify (λ w. record w { degraded = true; job = record w.job { result = some (fallback f) } })
          >> (modify (escalate decision.escalation_event) >> finish_with f))
        w

  -- The two halves of `DegradedModeStage.evaluate`, by the flag `_degraded`.
  abbrev pub by_flag : Bool → Option SignalState → Action Bool
  by_flag true signals w = handle_degraded_cycle signals w
  by_flag false signals w =
      let decision = Degraded.evaluate mode (context_of signals false w.job) in
      if decision.enter_degraded then enter_degraded decision w else pure false w

  -- `DegradedModeStage.evaluate`
  unfoldable pub degraded_mode_stage : Option SignalState → Action Bool
  degraded_mode_stage signals w = by_flag w.degraded signals w
