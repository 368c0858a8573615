-- ===== src/Scheduling/Policy.antt =====
-- The scheduling policies (src/platform/runtime/scheduling/policy.py).
-- Python compares texts by code point, and tuples component by component; `sorted` is stable.
pub mod Order
pub mod Select
use vai_core.Prelude.{
  ℕ, Bool, true, false, Option, none, some, List, [], ◌∷◌, String, ltb, eqb, ◌==◌, if◌then◌else◌,
}
use vai_core.Prelude.Texts.{text_lt}
use vai_core.Prelude.Sorting.{sorted}

pub data SchedulingMode : Type 0 where
  fifo priority_first : SchedulingMode

pub record JobMetadata : Type 0 where
  pub job_id : String
  pub priority : ℕ
  pub created_at : ℕ

-- `SchedulingDecision.reason`, with the values that its f-strings insert.
pub data DecisionReason : Type 0 where
  no_jobs : DecisionReason
  by_fifo : (created_at : ℕ) → DecisionReason
  by_priority : (priority created_at : ℕ) → DecisionReason

pub record SchedulingDecision : Type 0 where
  pub job_id : Option String
  pub reason : DecisionReason

-- `(x.created_at, x.job_id) < (y.created_at, y.job_id)`
unfoldable pub older : JobMetadata → JobMetadata → Bool
older x y =
    if ltb x.created_at y.created_at
    then true
    else if ltb y.created_at x.created_at
    then false
    else text_lt x.job_id y.job_id

-- `(-x.priority, x.created_at, x.job_id) < (-y.priority, y.created_at, y.job_id)`
unfoldable pub more_urgent : JobMetadata → JobMetadata → Bool
more_urgent x y =
    if ltb y.priority x.priority
    then true
    else if ltb x.priority y.priority
    then false
    else older x y

abbrev no_decision : SchedulingDecision
no_decision = record { job_id = none; reason = no_jobs }

-- `sorted(...)[0]`, reported by `decide`.
abbrev first_of_sorted : (JobMetadata → SchedulingDecision) → List JobMetadata → SchedulingDecision
first_of_sorted decide [] = no_decision
first_of_sorted decide (best ∷ rest) = decide best

unfoldable pub select_fifo : List JobMetadata → SchedulingDecision
unfolding sorted
select_fifo jobs =
    first_of_sorted (λ best. record { job_id = some best.job_id; reason = by_fifo best.created_at })
      (sorted older jobs)

unfoldable pub select_priority : List JobMetadata → SchedulingDecision
unfolding sorted
select_priority jobs =
    first_of_sorted
      (λ best. record {
        job_id = some best.job_id;
        reason = by_priority best.priority best.created_at;
      })
      (sorted more_urgent jobs)

-- `Scheduler.select`. The test for an empty list is made first; the helpers repeat it.
unfoldable pub select : SchedulingMode → List JobMetadata → SchedulingDecision
select mode [] = no_decision
select fifo (j ∷ js) = select_fifo (j ∷ js)
select priority_first (j ∷ js) = select_priority (j ∷ js)

-- `run_scheduling_tick` (src/platform/runtime/worker_tick.py)
pub data TickInstruction : Type 0 where
  no_work : DecisionReason → TickInstruction
  claim_job : String → DecisionReason → TickInstruction

abbrev tick_of : SchedulingDecision → TickInstruction
tick_of d = elim d.job_id [ none ↦ no_work d.reason | some id ↦ claim_job id d.reason ]

unfoldable pub run_scheduling_tick : SchedulingMode → List JobMetadata → TickInstruction
unfolding select
run_scheduling_tick mode jobs = tick_of (select mode jobs)
