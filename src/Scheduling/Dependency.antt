-- ===== src/Scheduling/Dependency.antt =====
-- Dependency-aware scheduling (src/platform/runtime/scheduling/dependency.py): what the end of a
-- child job does to its join handle and its siblings.
pub mod Release
pub mod Kept
pub mod Unblock
pub mod Success
pub mod Turn
pub mod Cancel
pub mod Fanin
use vai_core.Prelude.{
  ℕ, Bool, true, false, not, ◌&&◌, Option, none, some, List, [], ◌∷◌, map, String, ◌==◌, Result, ok,
  err, ◌>>=◌, if◌then◌else◌,
}
use vai_core.Prelude.Dict.{Dict, get, put, values}
use vai_core.Jobs.State.{
  JobState, pending, succeeded, failed, blocked, IllegalTransition, transition,
}
use vai_core.Jobs.Job.{Job}
use vai_core.Join.{JoinHandle, record_child_completed, record_child_failed}
use vai_core.Queue.{Queue, push}

-- The job store, the join store and the queue that the two hooks are given.
pub record Stores : Type 0 where
  pub jobs : Dict Job
  pub joins : Dict JoinHandle
  pub queue : Queue Job

abbrev pub Outcome : Type 0
Outcome = Result IllegalTransition Stores

-- `[meta["job_id"] for meta in job_store.list()]`
abbrev pub job_ids : Dict Job → List String
job_ids jobs = map (λ j. j.job_id) (values jobs)

abbrev pub handle_ids : Dict JoinHandle → List String
handle_ids joins = map (λ h. h.join_handle_id) (values joins)

unfoldable pub scan : (plan_id : String) → Dict JoinHandle → List String → Option String
unfolding get
scan plan_id joins [] = none
scan plan_id joins (id ∷ ids) =
    let rest = scan plan_id joins ids in
    elim (get joins id) [
      | none ↦ rest
      | some handle ↦ if handle.plan_id == plan_id then some handle.join_handle_id else rest
    ]

unfoldable pub find_join_handle : (plan_id : String) → Dict JoinHandle → Option String
unfolding scan
find_join_handle plan_id joins = scan plan_id joins (handle_ids joins)

abbrev pub is_succeeded : JobState → Bool
is_succeeded succeeded = true
is_succeeded _ = false

abbrev pub is_blocked : JobState → Bool
is_blocked blocked = true
is_blocked _ = false

-- `state in (JobState.BLOCKED, JobState.PENDING)`
abbrev pub is_waiting : JobState → Bool
is_waiting blocked = true
is_waiting pending = true
is_waiting _ = false

abbrev pub in_plan : Option String → (plan_id : String) → Bool
in_plan none plan_id = false
in_plan (some p) plan_id = p == plan_id

abbrev pub is_empty : List String → Bool
is_empty [] = true
is_empty (x ∷ xs) = false

abbrev pub dep_succeeded : Option Job → Bool
dep_succeeded none = false
dep_succeeded (some dep) = is_succeeded dep.state

unfoldable pub deps_satisfied : (depends_on : List String) → Dict Job → Bool
unfolding get
deps_satisfied [] jobs = true
deps_satisfied (id ∷ ids) jobs = dep_succeeded (get jobs id) && deps_satisfied ids jobs

unfoldable pub all_deps_satisfied : Job → Dict Job → Bool
unfolding deps_satisfied
all_deps_satisfied job jobs = deps_satisfied job.depends_on jobs

-- The guards of the scan of siblings.
unfoldable pub is_released : (plan_id : String) → Dict Job → Job → Bool
unfolding all_deps_satisfied
is_released plan_id jobs sibling =
    in_plan sibling.plan_id plan_id
    && is_blocked sibling.state
    && not (is_empty sibling.depends_on)
    && all_deps_satisfied sibling jobs

-- `job_store.save(sibling); queue.push(sibling)`
abbrev pub enqueue : Stores → Job → Stores
enqueue s job = record s { jobs = put s.jobs job.job_id job; queue = push s.queue job }

abbrev pub release : Stores → Job → Outcome
release s sibling = transition sibling.state pending >>= λ target.
    ok (enqueue s (record sibling { state = target }))

abbrev pub consider : (plan_id : String) → Stores → Option Job → Outcome
consider plan_id s none = ok s
consider plan_id s (some sibling) =
    if is_released plan_id s.jobs sibling then release s sibling else ok s

unfoldable pub unblock : (plan_id : String) → List String → Stores → Outcome
unfolding get put push transition is_released
unblock plan_id [] s = ok s
unblock plan_id (id ∷ ids) s = consider plan_id s (get s.jobs id) >>= unblock plan_id ids

abbrev pub plan_of : Option Job → Option String
plan_of none = none
plan_of (some child) = child.plan_id

unfoldable pub handle_child_success : (now : ℕ) → (child_job_id : String) → Stores → Outcome
unfolding get find_join_handle record_child_completed unblock
handle_child_success now child_job_id s = elim (plan_of (get s.jobs child_job_id)) [
  | none ↦ ok s
  | some plan_id ↦ elim (find_join_handle plan_id s.joins) [
    | none ↦ ok s
    | some handle_id ↦
        unblock plan_id (job_ids s.jobs)
          (record s { joins = record_child_completed now s.joins handle_id child_job_id })
  ]
]

-- `job_store.save(sibling); join_store.record_child_failed(handle_id, sibling_id)`
abbrev pub give_up : (now : ℕ) → (handle_id sibling_id : String) → Stores → Job → Stores
give_up now handle_id sibling_id s job = record s {
  jobs = put s.jobs job.job_id job;
  joins = record_child_failed now s.joins handle_id sibling_id;
}

abbrev pub abandon : (now : ℕ) → (handle_id sibling_id : String) → Stores → Option Job → Outcome
abandon now handle_id sibling_id s none = ok s
abandon now handle_id sibling_id s (some sibling) =
    if is_waiting sibling.state
    then (transition sibling.state failed >>= λ target.
        ok (give_up now handle_id sibling_id s (record sibling { state = target })))
    else ok s

unfoldable pub cancel_one :
    (now : ℕ) → (handle_id child_job_id sibling_id : String) → Stores → Outcome
unfolding get put transition record_child_failed
cancel_one now handle_id child_job_id id s =
    if id == child_job_id then ok s else abandon now handle_id id s (get s.jobs id)

unfoldable pub cancel :
    (now : ℕ) → (handle_id child_job_id : String) → List String → Stores → Outcome
unfolding cancel_one
cancel now handle_id child_job_id [] s = ok s
cancel now handle_id child_job_id (id ∷ ids) s =
    cancel_one now handle_id child_job_id id s >>= cancel now handle_id child_job_id ids

abbrev pub cancel_children :
    (now : ℕ) → (handle_id child_job_id : String) → Stores → Option JoinHandle → Outcome
cancel_children now handle_id child_job_id s none = ok s
cancel_children now handle_id child_job_id s (some handle) =
    cancel now handle_id child_job_id handle.child_job_ids s

unfoldable pub handle_child_failure : (now : ℕ) → (child_job_id : String) → Stores → Outcome
unfolding get find_join_handle record_child_failed cancel
handle_child_failure now child_job_id s = elim (plan_of (get s.jobs child_job_id)) [
  | none ↦ ok s
  | some plan_id ↦ elim (find_join_handle plan_id s.joins) [
    | none ↦ ok s
    | some handle_id ↦
        let joins = record_child_failed now s.joins handle_id child_job_id in
        cancel_children now handle_id child_job_id (record s { joins = joins })
          (get joins handle_id)
  ]
]
