-- ===== src/Safety/DegradedMode.antt =====
-- The degraded-mode evaluator (src/platform/runtime/safety/degraded_mode.py). Times are in
-- milliseconds. The escalation event's timestamp is left out.
use vai_core.Prelude.{
  ℕ, ◌+◌, Bool, true, false, not, ◌&&◌, ◌||◌, Option, none, some, List, [], ◌∷◌, ◌++◌, String, ltb,
  leb, ◌==◌, if◌then◌else◌,
}
use vai_core.Prelude.Dict.{Dict, get}
use vai_core.Jobs.Job.{
  Reason, consecutive_failures_exceeded, panic_threshold_exceeded, crash_threshold_exceeded,
  retry_policy_exhausted, s1_instability, s2_instability, s3_instability, multi_signal,
  already_degraded, insufficient_signals, s1_not_stable, s2_not_stable, s3_not_stable,
  critical_errors_in_window, recent_critical_error, Detail, after_failures, after_panics,
  after_crashes, because, Hint, stable_cycles_and_window, s1_cycles, s2_integrity, s3_heartbeat,
  all_strata, all_green, Fallback,
}

pub record SignalState : Type 0 where
  pub s1_stable : Bool
  pub s1_stable_cycles : ℕ
  pub s2_stable : Bool
  pub s3_stable : Bool
  pub new_critical_errors : ℕ
  pub last_error_timestamp : ℕ

pub record DegradedContext : Type 0 where
  pub consecutive_failures : ℕ
  pub panic_count : ℕ
  pub crash_count : ℕ
  pub retry_exhausted : Bool
  pub signal_state : Option SignalState
  pub worker_id : String
  pub job_id : String
  pub in_degraded : Bool  -- `already_degraded`

-- `WorkerDegradedEvent` and `WorkerRecoveredEvent`
pub record DegradedEvent : Type 0 where
  pub worker_id : String
  pub job_id : String
  pub reason : Reason

pub record RecoveredEvent : Type 0 where
  pub worker_id : String
  pub stability_window : ℕ

pub record DegradedDecision : Type 0 where
  pub enter_degraded : Bool
  pub reason : Option Reason
  pub fallback_output : Option Fallback
  pub escalation_event : Option DegradedEvent
  pub recovery_event : Option RecoveredEvent
  pub currently_degraded : Bool

-- `DegradedMode`: its thresholds and the recovery gates.
pub record DegradedMode : Type 0 where
  pub thresholds : Dict ℕ
  pub recovery_stable_cycles : ℕ
  pub recovery_error_window : ℕ
  pub worker_id : String

abbrev pub default_degraded_mode : String → DegradedMode
default_degraded_mode worker = record {
  thresholds = ("failures", 3) ∷ ("panics", 1) ∷ ("crashes", 1) ∷ [];
  recovery_stable_cycles = 5;
  recovery_error_window = 60000;
  worker_id = worker;
}

-- `thresholds.get(key, default)`
abbrev threshold : Option ℕ → ℕ → ℕ
threshold none d = d
threshold (some n) d = n

-- `self.worker_id or ctx.worker_id`
abbrev pub or_else : String → String → String
or_else a b = if a == "" then b else a

abbrev pub name_instability : List Reason → Option Reason
name_instability [] = none
name_instability (r ∷ []) = some r
name_instability (r ∷ q ∷ rs) = some multi_signal

-- `_check_signal_instability`: the unstable strata are collected in order.
unfoldable pub check_signal_instability : SignalState → Option Reason
check_signal_instability sig = name_instability (
    (if sig.s1_stable then [] else s1_instability ∷ [])
    ++ ((if sig.s2_stable then [] else s2_instability ∷ [])
        ++ (if sig.s3_stable then [] else s3_instability ∷ [])))

abbrev of_signals : Option SignalState → Option Reason
of_signals none = none
of_signals (some sig) = check_signal_instability sig

-- The ladder of `evaluate`, first match wins.
unfoldable pub find_reason : DegradedMode → DegradedContext → Option Reason
unfolding check_signal_instability get
find_reason m ctx =
    if ctx.retry_exhausted
    then some retry_policy_exhausted
    else if leb (threshold (get m.thresholds "failures") 3) ctx.consecutive_failures
    then some consecutive_failures_exceeded
    else if leb (threshold (get m.thresholds "panics") 1) ctx.panic_count
    then some panic_threshold_exceeded
    else if leb (threshold (get m.thresholds "crashes") 1) ctx.crash_count
    then some crash_threshold_exceeded
    else of_signals ctx.signal_state

-- `_build_detail`
unfoldable pub build_detail : Reason → DegradedContext → Detail
build_detail consecutive_failures_exceeded ctx = after_failures ctx.consecutive_failures
build_detail panic_threshold_exceeded ctx = after_panics ctx.panic_count
build_detail crash_threshold_exceeded ctx = after_crashes ctx.crash_count
build_detail r ctx = because r

-- `_build_recovery_hint`
unfoldable pub build_recovery_hint : DegradedMode → Reason → Hint
build_recovery_hint m consecutive_failures_exceeded =
    stable_cycles_and_window m.recovery_stable_cycles m.recovery_error_window
build_recovery_hint m panic_threshold_exceeded =
    stable_cycles_and_window m.recovery_stable_cycles m.recovery_error_window
build_recovery_hint m crash_threshold_exceeded =
    stable_cycles_and_window m.recovery_stable_cycles m.recovery_error_window
build_recovery_hint m retry_policy_exhausted =
    stable_cycles_and_window m.recovery_stable_cycles m.recovery_error_window
build_recovery_hint m s1_instability = s1_cycles m.recovery_stable_cycles
build_recovery_hint m s2_instability = s2_integrity
build_recovery_hint m s3_instability = s3_heartbeat
build_recovery_hint m multi_signal = all_strata
build_recovery_hint m _ = all_green

abbrev stay : Reason → DegradedDecision
stay r = record {
  enter_degraded = true;
  reason = some r;
  fallback_output = none;
  escalation_event = none;
  recovery_event = none;
  currently_degraded = true;
}

abbrev healthy : DegradedDecision
healthy = record {
  enter_degraded = false;
  reason = none;
  fallback_output = none;
  escalation_event = none;
  recovery_event = none;
  currently_degraded = false;
}

abbrev pub enter : DegradedMode → DegradedContext → Option Reason → DegradedDecision
enter m ctx none = healthy
enter m ctx (some r) = record {
  enter_degraded = true;
  reason = some r;
  fallback_output = some (record {
    reason = r;
    detail = build_detail r ctx;
    job_id = ctx.job_id;
    recovery_hint = build_recovery_hint m r;
  });
  escalation_event =
      some
        (record { worker_id = or_else m.worker_id ctx.worker_id; job_id = ctx.job_id; reason = r });
  recovery_event = none;
  currently_degraded = false;
}

-- `DegradedMode.evaluate`
unfoldable pub evaluate : DegradedMode → DegradedContext → DegradedDecision
unfolding find_reason
evaluate m ctx = if ctx.in_degraded then stay already_degraded else enter m ctx (find_reason m ctx)

-- The four gates of `check_recovery`, at the time `now`. The last compares `now - last < window`.
abbrev gates : DegradedMode → ℕ → SignalState → Option Reason
gates m now sig =
    if not sig.s1_stable || ltb sig.s1_stable_cycles m.recovery_stable_cycles
    then some s1_not_stable
    else if not sig.s2_stable
    then some s2_not_stable
    else if not sig.s3_stable
    then some s3_not_stable
    else if ltb 0 sig.new_critical_errors
    then some critical_errors_in_window
    else if ltb 0 sig.last_error_timestamp
        && ltb now (sig.last_error_timestamp + m.recovery_error_window)
    then some recent_critical_error
    else none

abbrev recover : DegradedMode → DegradedContext → Option Reason → DegradedDecision
recover m ctx (some r) = stay r
recover m ctx none = record healthy {
  recovery_event = some (record {
    worker_id = or_else m.worker_id ctx.worker_id;
    stability_window = m.recovery_stable_cycles;
  });
}

abbrev with_signals : DegradedMode → ℕ → DegradedContext → Option SignalState → DegradedDecision
with_signals m now ctx none = stay insufficient_signals
with_signals m now ctx (some sig) = recover m ctx (gates m now sig)

-- `DegradedMode.check_recovery`
unfoldable pub check_recovery : DegradedMode → (now : ℕ) → DegradedContext → DegradedDecision
check_recovery m now ctx =
    if ctx.in_degraded then with_signals m now ctx ctx.signal_state else healthy
