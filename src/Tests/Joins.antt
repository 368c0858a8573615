-- ===== src/Tests/Joins.antt =====
-- The theorem on join handles, at a plan of two children.
use vai_core.Prelude.{
  Bool, true, false, none, List, [], ◌∷◌, String, ◌==◌, ◌≡◌, refl, ◌||◌, all, elem, Distinct, arith,
  eq_iff, subst,
}
use vai_core.Join.{JoinHandle, waiting, failed}
use vai_core.Join.Reports.{Report, success, failure, report_all, has_success, has_failure, IsFresh}
use vai_core.Join.Settled.{report_all-settles}

abbrev pub plan : JoinHandle
plan = record {
  join_handle_id = "join-1";
  parent_job_id = "job-0";
  plan_id = "plan-1";
  child_job_ids = "job-1" ∷ "job-2" ∷ [];
  completed_ids = [];
  failed_ids = [];
  state = waiting;
  merge_strategy = "concat";
  merge_agent_id = none;
  created_at = 7;
  completed_at = none;
}

pub plan-IsFresh : IsFresh plan
plan-IsFresh = record {
  no_completed = refl;
  no_failed = refl;
  is_waiting = refl;
  has_children = λ e. cc e;
}

pub plan-Distinct : Distinct plan.child_job_ids
unfolding elem
plan-Distinct = (refl, (refl, tt))

-- Both children are reported, one of them twice, with a job of another plan between.
abbrev reports : List Report
reports = success 8 "job-2" ∷ failure 9 "job-9" ∷ success 9 "job-2" ∷ failure 10 "job-1" ∷ []

twice : (b : Bool) → (b || (b || false)) ≡ true → b ≡ true
twice b h = ground (arith, h)

reports-apart : (x : String) → has_success reports x ≡ true → has_failure reports x ≡ false
unfolding has_success has_failure
reports-apart x h =
    subst (λ y. has_failure reports y ≡ false) ((eq_iff "job-2" x).0 (twice ("job-2" == x) h)) refl

report_all-settles_example : (report_all reports plan).state ≡ failed
unfolding has_success has_failure all
report_all-settles_example =
    report_all-settles plan reports plan-IsFresh plan-Distinct reports-apart
