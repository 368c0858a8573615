-- ===== src/Jobs/State.antt =====
-- The job state machine (src/platform/runtime/job_state.py).
pub mod Lifecycle
use vai_core.Prelude.{Bool, true, false, Result, ok, err, if◌then◌else◌}

pub data JobState : Type 0 where
  pending running succeeded failed poison blocked : JobState

-- `(current, target) in _TRANSITIONS`, the set written as a table.
unfoldable pub can_transition : JobState → JobState → Bool
can_transition pending running = true
can_transition running succeeded = true
can_transition running failed = true
can_transition running poison = true
can_transition pending blocked = true
can_transition blocked pending = true
can_transition blocked failed = true
can_transition pending failed = true
can_transition _ _ = false

-- The `ValueError` of an illegal transition, with the two states that its text names.
pub record IllegalTransition : Type 0 where
  pub current : JobState
  pub target : JobState

-- `assert_transition`, then the target.
unfoldable pub transition : JobState → JobState → Result IllegalTransition JobState
unfolding can_transition
transition current target =
    if can_transition current target
    then ok target
    else err (record { current = current; target = target })

abbrev pub is_pending : JobState → Bool
is_pending pending = true
is_pending _ = false
