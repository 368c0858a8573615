-- ===== src/Scheduling/Dependency/Kept.antt =====
-- What a step of the scan keeps: the keys of the store, and which dependencies are satisfied.
use vai_core.Prelude.{
  true, false, Option, none, some, List, [], ◌∷◌, ◌++◌, String, ◌==◌, eq_iff, ok, ◌>>=◌,
  if◌then◌else◌, ◌≡◌, refl, sym, ap, ◌∙◌, subst, Bool-cases, inl, inr, arith,
}
use vai_core.Prelude.Dict.{Dict, get, get-put}
use vai_core.Jobs.State.{
  JobState, pending, running, succeeded, failed, poison, blocked, transition, can_transition,
}
use vai_core.Jobs.Job.{Job}
use vai_core.Queue.{push}
use vai_core.Scheduling.Dependency.{
  Stores, is_blocked, dep_succeeded, all_deps_satisfied, is_released, enqueue, release, consider,
}
use vai_core.Scheduling.Dependency.Release.{
  Keyed, queued, released, entries, SameDone, deps_satisfied-cong,
}

is_released-cong :
    (plan_id : String) (old new : Dict Job)
    → SameDone old new
    → (job : Job) → is_released plan_id new job ≡ is_released plan_id old job
unfolding is_released all_deps_satisfied
is_released-cong plan_id old new same job = cc (deps_satisfied-cong old new same job.depends_on)

blocked_of :
    (plan_id : String) (jobs : Dict Job) (job : Job)
    → is_released plan_id jobs job ≡ true
    → job.state ≡ blocked
unfolding is_released
blocked_of plan_id jobs job h = go job.state (ground (arith, h))
  where
    go : (state : JobState) → is_blocked state ≡ true → state ≡ blocked
    go blocked e = refl
    go pending e = absurd (cc e)
    go running e = absurd (cc e)
    go succeeded e = absurd (cc e)
    go failed e = absurd (cc e)
    go poison e = absurd (cc e)

release_lem :
    (s : Stores) (job : Job) → job.state ≡ blocked → release s job ≡ ok (enqueue s (queued job))
unfolding transition can_transition
release_lem s job h =
    ap
      (λ state.
        transition state pending >>= λ target. ok (enqueue s (record job { state = target })))
      h

-- One step of the scan at an id, from `s` to `t`.
pub record Step (plan_id id : String) (s t : Stores) : Type 0 where
  pub at_id : get t.jobs id ≡ released plan_id s.jobs (get s.jobs id)
  pub elsewhere : (k : String) → id == k ≡ false → get t.jobs k ≡ get s.jobs k
  pub appended : t.queue.items ≡ s.queue.items ++ entries plan_id s.jobs (get s.jobs id)
  pub same_joins : t.joins ≡ s.joins

pub append-nil : (xs : List Job) → xs ++ [] ≡ xs
append-nil [] = refl
append-nil (x ∷ xs) = ap (λ ys. x ∷ ys) (append-nil xs)

consider-some :
    (plan_id id : String) (s : Stores) (job : Job)
    → get s.jobs id ≡ some job
    → job.job_id ≡ id
    → (t : Stores) × (consider plan_id s (some job) ≡ ok t) × Step plan_id id s t
unfolding push
consider-some plan_id id s job here key = elim (Bool-cases (is_released plan_id s.jobs job)) [
  | inl go ↦ (
    enqueue s (queued job),
    rw go (release_lem s job (blocked_of plan_id s.jobs job go)),
    record {
      at_id =
          rw (here, go, get-put s.jobs job.job_id id (queued job), (eq_iff job.job_id id).1 key)
            refl;
      elsewhere = λ k other. rw (get-put s.jobs job.job_id k (queued job), key, other) refl;
      appended = rw (here, go) refl;
      same_joins = refl;
    },
  )
  | inr skip ↦ (
    s,
    rw skip refl,
    record {
      at_id = rw (here, skip) refl;
      elsewhere = λ k other. refl;
      appended = rw (here, skip) (sym (append-nil s.queue.items));
      same_joins = refl;
    },
  )
]

pub consider_lem :
    (plan_id id : String) (s : Stores)
    → Keyed s.jobs
    → (t : Stores) × (consider plan_id s (get s.jobs id) ≡ ok t) × Step plan_id id s t
consider_lem plan_id id s keyed = go (get s.jobs id) refl
  where
    go :
        (found : Option Job)
        → get s.jobs id ≡ found
        → (t : Stores) × (consider plan_id s (get s.jobs id) ≡ ok t) × Step plan_id id s t
    go none e = (
      s,
      ap (consider plan_id s) e,
      record {
        at_id = rw e refl;
        elsewhere = λ k other. refl;
        appended = rw e (sym (append-nil s.queue.items));
        same_joins = refl;
      },
    )
    go (some job) e =
        let step = consider-some plan_id id s job e (keyed id job e) in
        (step.0, ap (consider plan_id s) e ∙ step.1, step.2)

pub released-cong :
    (plan_id : String) (old new : Dict Job)
    → SameDone old new
    → (x : Option Job) → released plan_id new x ≡ released plan_id old x
released-cong plan_id old new same none = refl
released-cong plan_id old new same (some job) = cc (is_released-cong plan_id old new same job)

pub entries-cong :
    (plan_id : String) (old new : Dict Job)
    → SameDone old new
    → (x : Option Job) → entries plan_id new x ≡ entries plan_id old x
entries-cong plan_id old new same none = refl
entries-cong plan_id old new same (some job) = cc (is_released-cong plan_id old new same job)

released-done :
    (plan_id : String) (jobs : Dict Job) (x : Option Job)
    → dep_succeeded (released plan_id jobs x) ≡ dep_succeeded x
released-done plan_id jobs none = refl
released-done plan_id jobs (some job) = elim (Bool-cases (is_released plan_id jobs job)) [
  | inl go ↦ rw (go, blocked_of plan_id jobs job go) refl
  | inr skip ↦ rw skip refl
]

pub Step-SameDone :
    (plan_id id : String) (s t : Stores) → Step plan_id id s t → SameDone s.jobs t.jobs
Step-SameDone plan_id id s t step k = elim (Bool-cases (id == k)) [
  | inl same ↦
      subst (λ j. dep_succeeded (get t.jobs j) ≡ dep_succeeded (get s.jobs j))
        ((eq_iff id k).0 same)
        (ap dep_succeeded step.at_id ∙ released-done plan_id s.jobs (get s.jobs id))
  | inr other ↦ ap dep_succeeded (step.elsewhere k other)
]

released-id :
    (plan_id : String) (jobs : Dict Job) (x : Option Job) (job : Job)
    → released plan_id jobs x ≡ some job
    → (old : Job) × (x ≡ some old) × (old.job_id ≡ job.job_id)
released-id plan_id jobs none job h = absurd (cc h)
released-id plan_id jobs (some old) job h = (
  old,
  refl,
  elim (Bool-cases (is_released plan_id jobs old)) [
    | inl go ↦ ap id_or (sym (ap (λ b. some (if b then queued old else old)) go) ∙ h)
    | inr skip ↦ ap id_or (sym (ap (λ b. some (if b then queued old else old)) skip) ∙ h)
  ],
)
  where
    id_or : Option Job → String
    id_or none = old.job_id
    id_or (some j) = j.job_id

pub Step-Keyed :
    (plan_id id : String) (s t : Stores) → Step plan_id id s t → Keyed s.jobs → Keyed t.jobs
Step-Keyed plan_id id s t step keyed k job h = elim (Bool-cases (id == k)) [
  | inl same ↦
      let e = (eq_iff id k).0 same in
      let old =
        released-id plan_id s.jobs (get s.jobs id) job (sym step.at_id ∙ ap (get t.jobs) e ∙ h) in
      sym old.2 ∙ keyed id old.0 old.1 ∙ e
  | inr other ↦ keyed k job (sym (step.elsewhere k other) ∙ h)
]
