-- ===== src/Worker/Preflight.antt =====
-- A job that comes in PENDING and healthy, to a worker that is not degraded.
use vai_core.Prelude.{ℕ, ◌<◌, Bool, true, false, Option, none, String, ok, ◌≡◌, refl, arith}
use vai_core.Prelude.Dict.{get}
use vai_core.Recovery
use vai_core.Jobs.State.{pending, running}
use vai_core.Jobs.Job.{Job}
use vai_core.Jobs.Action.{World}
use vai_core.Jobs.ControlPlane.{append_lifecycle_event, issue_resume_token, mark_running}
use vai_core.Safety.DegradedMode.{DegradedContext, default_degraded_mode, find_reason, evaluate}
use vai_core.Pipeline.Execution.Rounds.{IsSame}
use vai_core.Pipeline.Stages.{crash_recovery_stage, idempotency_stage, context_of, by_flag}

-- Below every threshold of degraded mode, with no failure counted since the last success.
abbrev pub IsHealthy : Job → Type 0
IsHealthy j =
    (j.failure_count ≡ 0) × (j.consecutive_failures < 3) × (j.panic_count ≡ 0) × (j.crash_count ≡ 0)

-- What the stages before execution leave.
unfoldable pub Started : Job → ℕ → World → Type 0
Started job calls w =
    (w.job.state ≡ running)
    × IsHealthy w.job
    × (w.degraded ≡ false)
    × (w.calls ≡ calls)
    × IsSame job w.job

pub crash_recovery_stage-Started :
    (token : ℕ → String) (w : World)
    → w.job.state ≡ pending
    → IsHealthy w.job
    → w.degraded ≡ false
    → let r = crash_recovery_stage token w in (r.0 ≡ ok false) × Started w.job w.calls r.1
unfolding crash_recovery_stage Recovery.evaluate append_lifecycle_event issue_resume_token
    mark_running Started
crash_recovery_stage-Started token w state healthy flag = ground arith

pub idempotency_stage-Started :
    (stored : Option Job) (job : Job) (calls : ℕ) (w : World)
    → Started job calls w
    → let r = idempotency_stage stored w in (r.0 ≡ ok false) × Started job calls r.1
unfolding idempotency_stage append_lifecycle_event Started
idempotency_stage-Started stored job calls w h = ground arith

find_reason-healthy :
    (ctx : DegradedContext)
    → ctx.consecutive_failures < 3
    → ctx.panic_count ≡ 0
    → ctx.crash_count ≡ 0
    → ctx.retry_exhausted ≡ false
    → ctx.signal_state ≡ none
    → find_reason (default_degraded_mode "") ctx ≡ none
unfolding find_reason get
find_reason-healthy ctx failures panics crashes exhausted signals = ground arith

pub by_flag-healthy :
    (token : ℕ → String) (now : ℕ) (w : World) (flag : Bool)
    → flag ≡ false
    → IsHealthy w.job
    → by_flag token (default_degraded_mode "") now flag none w ≡ (ok false, w)
unfolding evaluate
by_flag-healthy token now w true no_flag healthy = absurd (cc no_flag)
by_flag-healthy token now w false no_flag (none_failed, failures, panics, crashes) =
    let ctx = context_of token (default_degraded_mode "") now none false w.job in
    rw (find_reason-healthy ctx failures panics crashes refl refl)
