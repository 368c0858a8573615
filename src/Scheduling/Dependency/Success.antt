-- ===== src/Scheduling/Dependency/Success.antt =====
-- The whole hook for a child that succeeded.
use vai_core.Prelude.{
  ℕ, Bool, true, false, Option, none, some, [], ◌∷◌, ◌++◌, String, ◌==◌, eq_iff, ok, if◌then◌else◌,
  ◌≡◌, refl, sym, ap, ◌∙◌, Bool-cases, inl, inr, arith, elem, Distinct,
}
use vai_core.Prelude.Dict.{Dict, get}
use vai_core.Jobs.Job.{Job}
use vai_core.Join.{record_child_completed}
use vai_core.Scheduling.Dependency.{
  Stores, job_ids, plan_of, find_join_handle, handle_child_success,
}
use vai_core.Scheduling.Dependency.Release.{Keyed, released, all_entries}
use vai_core.Scheduling.Dependency.Unblock.{unblock_lem}

-- A job store as `save` builds it.
pub record IsStore (jobs : Dict Job) : Type 0 where
  pub keyed : Keyed jobs
  pub distinct : Distinct (job_ids jobs)

abbrev job_of : Job → Option Job → Job
job_of d none = d
job_of d (some job) = job

get-elem :
    (jobs : Dict Job) (id : String) (job : Job)
    → get jobs id ≡ some job
    → elem job.job_id (job_ids jobs) ≡ true
unfolding get elem
get-elem [] id job h = absurd (cc h)
get-elem ((k, first) ∷ jobs) id job h = elim (Bool-cases (k == id)) [
  | inl same ↦
      let e : first ≡ job =
        ap (job_of first) (sym (ap (λ b. if b then some first else get jobs id) same) ∙ h) in
      rw e (ground (arith, eq_iff job.job_id job.job_id))
  | inr other ↦
      let rest =
        get-elem jobs id job (sym (ap (λ b. if b then some first else get jobs id) other) ∙ h) in
      ground (arith, rest)
]

each_job :
    (plan_id id : String) (jobs : Dict Job) (x found : Option Job) (b : Bool)
    → found ≡ (if b then released plan_id jobs x else x)
    → ((job : Job) → x ≡ some job → b ≡ true)
    → found ≡ released plan_id jobs x
each_job plan_id id jobs none found true h listed = h
each_job plan_id id jobs none found false h listed = h
each_job plan_id id jobs (some job) found true h listed = h
each_job plan_id id jobs (some job) found false h listed = absurd (cc (listed job refl))

-- In a store that holds every job under its own id, each once, and when the child's plan has a join
-- handle, the hook returns; it records the child on the handle, turns exactly the blocked siblings
-- of the plan whose nonempty dependencies had all succeeded before the call into pending ones,
-- leaves every other job as it was, and adds the released siblings to the end of the queue, each
-- once, in the order of the store.
pub handle_child_success-unblocks :
    (now : ℕ) (child_job_id plan_id handle_id : String) (s : Stores)
    → IsStore s.jobs
    → plan_of (get s.jobs child_job_id) ≡ some plan_id
    → find_join_handle plan_id s.joins ≡ some handle_id
    → (t : Stores) × (handle_child_success now child_job_id s ≡ ok t)
      × ((id : String) → get t.jobs id ≡ released plan_id s.jobs (get s.jobs id))
      × (t.queue.items ≡ s.queue.items ++ all_entries plan_id s.jobs (job_ids s.jobs))
      × (t.joins ≡ record_child_completed now s.joins handle_id child_job_id)
unfolding handle_child_success
handle_child_success-unblocks now child_job_id plan_id handle_id s store plan handle =
    let scan =
      unblock_lem plan_id (job_ids s.jobs) s.jobs
        (record s { joins = record_child_completed now s.joins handle_id child_job_id }) store.keyed
        (λ k. refl) store.distinct (λ k m. refl) in
    let done = scan.2 in
    (
      scan.0,
      rw (handle_child_success, plan, handle) scan.1,
      λ id.
          each_job plan_id id s.jobs (get s.jobs id) (get scan.0.jobs id) (elem id (job_ids s.jobs))
            (done.each id)
            (λ job e.
              sym (ap (λ k. elem k (job_ids s.jobs)) (store.keyed id job e))
              ∙ get-elem s.jobs id job e),
      done.appended,
      done.same_joins,
    )
