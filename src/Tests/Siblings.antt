-- ===== src/Tests/Siblings.antt =====
-- The theorems on the siblings of a child job, at a plan of three.
use vai_core.Prelude.{
  none, some, Option, List, [], ◌∷◌, ◌++◌, String, ◌==◌, ◌≡◌, refl, if◌then◌else◌, elem, eq_iff, ok,
  inl, inr, Bool-cases, sym, ap, ◌∙◌,
}
use vai_core.Prelude.Dict.{Dict, get}
use vai_core.Jobs.State.{JobState, succeeded, blocked}
use vai_core.Jobs.Job.{Job, create_job}
use vai_core.Join.{record_child_completed}
use vai_core.Scheduling.Dependency.{Stores, job_ids, scan, find_join_handle, handle_child_success}
use vai_core.Scheduling.Dependency.Release.{Keyed, released, all_entries}
use vai_core.Scheduling.Dependency.Success.{IsStore, handle_child_success-unblocks}
use vai_core.Tests.Platform.{hello}
use vai_core.Join
use vai_core.Tests.Joins.{plan}

abbrev child : String → JobState → List String → Job
child id state deps = record (create_job id 7 hello) {
  state = state;
  plan_id = some "plan-1";
  depends_on = deps;
}

-- `job-2` waits for `job-1`, which ends in the given state.
abbrev stores : JobState → Stores
stores state = record {
  jobs = ("job-1", child "job-1" state []) ∷ ("job-2", child "job-2" blocked ("job-1" ∷ [])) ∷ [];
  joins = ("join-1", plan) ∷ [];
  queue = record { items = []; in_flight = [] };
}

abbrev id_or : Job → Option Job → String
id_or d none = d.job_id
id_or d (some job) = job.job_id

cons-Keyed : (first : Job) (jobs : Dict Job) → Keyed jobs → Keyed ((first.job_id, first) ∷ jobs)
unfolding get
cons-Keyed first jobs keyed id job h = elim (Bool-cases (first.job_id == id)) [
  | inl same ↦
      sym (ap (id_or first) (sym (ap (λ b. if b then some first else get jobs id) same) ∙ h))
      ∙ (eq_iff first.job_id id).0 same
  | inr other ↦ keyed id job (sym (ap (λ b. if b then some first else get jobs id) other) ∙ h)
]

nil-Keyed : Keyed []
unfolding get
nil-Keyed id job h = absurd (cc h)

stores-Keyed : (state : JobState) → Keyed (stores state).jobs
unfolding create_job
stores-Keyed state =
    cons-Keyed (child "job-1" state []) (("job-2", child "job-2" blocked ("job-1" ∷ [])) ∷ [])
      (cons-Keyed (child "job-2" blocked ("job-1" ∷ [])) [] nil-Keyed)

stores-IsStore : IsStore (stores succeeded).jobs
unfolding elem create_job
stores-IsStore = record { keyed = stores-Keyed succeeded; distinct = (refl, (refl, tt)) }

handle_child_success-unblocks_example :
    (t : Stores) × (handle_child_success 9 "job-1" (stores succeeded) ≡ ok t)
    × ((id : String)
        → get t.jobs id
          ≡ released "plan-1" (stores succeeded).jobs (get (stores succeeded).jobs id))
    × (t.queue.items
        ≡ [] ++ all_entries "plan-1" (stores succeeded).jobs (job_ids (stores succeeded).jobs))
    × (t.joins ≡ record_child_completed 9 (stores succeeded).joins "join-1" "job-1")
unfolding get create_job find_join_handle scan
handle_child_success-unblocks_example =
    handle_child_success-unblocks 9 "job-1" "plan-1" "join-1" (stores succeeded) stores-IsStore refl
      refl
