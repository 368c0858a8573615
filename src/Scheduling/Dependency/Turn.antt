-- ===== src/Scheduling/Dependency/Turn.antt =====
-- One turn of the loop that cancels siblings: what it does to the stores.
use vai_core.Prelude.{
  ℕ, Bool, true, false, not, ◌&&◌, Option, none, some, List, [], ◌∷◌, String, ◌==◌, eq_iff, ok,
  if◌then◌else◌, ◌≡◌, refl, sym, ap, ◌∙◌, Bool-cases, inl, inr, elem,
}
use vai_core.Prelude.Dict.{Dict, get, put, get-put, get-put_self}
use vai_core.Jobs.State.{
  JobState, pending, running, succeeded, failed, poison, blocked, transition, can_transition,
}
use vai_core.Jobs.Job.{Job}
use vai_core.Join.{JoinHandle, mark_child_failed, record_child_failed}
use vai_core.Join.Reports.{Report, failure, report}
use vai_core.Scheduling.Dependency.{Stores, is_waiting, give_up, abandon, cancel_one}
use vai_core.Scheduling.Dependency.Release.{Keyed}

abbrev pub broken : Job → Job
broken job = record job { state = failed }

-- The job as the loop leaves it.
abbrev pub cancelled : Option Job → Option Job
cancelled none = none
cancelled (some job) = some (if is_waiting job.state then broken job else job)

-- The loop visits every child of the handle but the one that failed.
unfoldable pub is_visited : (child_job_id : String) → List String → String → Bool
unfolding elem
is_visited child_job_id ids id = not (id == child_job_id) && elem id ids

abbrev pub is_cancelled : Option Job → Bool
is_cancelled none = false
is_cancelled (some job) = is_waiting job.state

-- The failures that the loop reports to the handle.
unfoldable pub cancellations :
    (now : ℕ) → (child_job_id : String) → Dict Job → List String → List Report
unfolding get
cancellations now child jobs [] = []
cancellations now child jobs (id ∷ ids) =
    let rest = cancellations now child jobs ids in
    if not (id == child) && is_cancelled (get jobs id) then failure now id ∷ rest else rest

transition-failed :
    (state : JobState) → is_waiting state ≡ true → transition state failed ≡ ok failed
unfolding transition can_transition
transition-failed blocked h = refl
transition-failed pending h = refl
transition-failed running h = absurd (cc h)
transition-failed succeeded h = absurd (cc h)
transition-failed failed h = absurd (cc h)
transition-failed poison h = absurd (cc h)

-- One turn of the loop at an id, from `s` to `t`.
pub record Turn (now : ℕ) (child handle_id id : String) (s t : Stores) : Type 0 where
  pub at_id : get t.jobs id ≡ (if id == child then get s.jobs id else cancelled (get s.jobs id))
  pub elsewhere : (k : String) → id == k ≡ false → get t.jobs k ≡ get s.jobs k
  pub reported : t.joins ≡ (
      if not (id == child) && is_cancelled (get s.jobs id)
      then record_child_failed now s.joins handle_id id
      else s.joins)
  pub same_queue : t.queue ≡ s.queue

abandon-some :
    (now : ℕ) (child handle_id id : String) (s : Stores) (job : Job)
    → get s.jobs id ≡ some job
    → job.job_id ≡ id
    → id == child ≡ false
    → (t : Stores) × (abandon now handle_id id s (some job) ≡ ok t)
      × Turn now child handle_id id s t
abandon-some now child handle_id id s job here key other =
    elim (Bool-cases (is_waiting job.state)) [
      | inl go ↦ (
        give_up now handle_id id s (broken job),
        rw (go, transition-failed job.state go) refl,
        record {
          at_id =
              rw
                (
                  here,
                  other,
                  go,
                  get-put s.jobs job.job_id id (broken job),
                  (eq_iff job.job_id id).1 key,
                )
                refl;
          elsewhere = λ k apart. rw (get-put s.jobs job.job_id k (broken job), key, apart) refl;
          reported = rw (here, other, go) refl;
          same_queue = refl;
        },
      )
      | inr skip ↦ (
        s,
        rw skip refl,
        record {
          at_id = rw (here, other, skip) refl;
          elsewhere = λ k apart. refl;
          reported = rw (here, other, skip) refl;
          same_queue = refl;
        },
      )
    ]

pub turn_lem :
    (now : ℕ) (child handle_id id : String) (s : Stores)
    → Keyed s.jobs
    → (t : Stores) × (cancel_one now handle_id child id s ≡ ok t) × Turn now child handle_id id s t
unfolding cancel_one
turn_lem now child handle_id id s keyed = elim (Bool-cases (id == child)) [
  | inl same ↦ (
    s,
    rw same refl,
    record {
      at_id = rw same refl;
      elsewhere = λ k apart. refl;
      reported = rw same refl;
      same_queue = refl;
    },
  )
  | inr other ↦ go other (get s.jobs id) refl
]
  where
    go :
        id == child ≡ false
        → (found : Option Job) → get s.jobs id ≡ found
        → (t : Stores) × ((if id == child then ok s else abandon now handle_id id s (get s.jobs id))
            ≡ ok t)
          × Turn now child handle_id id s t
    go other none e = (
      s,
      rw (other, e) refl,
      record {
        at_id = rw (other, e) refl;
        elsewhere = λ k apart. refl;
        reported = rw (other, e) refl;
        same_queue = refl;
      },
    )
    go other (some job) e =
        let step = abandon-some now child handle_id id s job e (keyed id job e) other in
        (step.0, rw (other, e) step.1, step.2)

cancelled-id :
    (x : Option Job) (job : Job)
    → cancelled x ≡ some job
    → (old : Job) × (x ≡ some old) × (old.job_id ≡ job.job_id)
cancelled-id none job h = absurd (cc h)
cancelled-id (some old) job h = (
  old,
  refl,
  elim (Bool-cases (is_waiting old.state)) [
    | inl go ↦ ap id_or (sym (ap (λ b. some (if b then broken old else old)) go) ∙ h)
    | inr skip ↦ ap id_or (sym (ap (λ b. some (if b then broken old else old)) skip) ∙ h)
  ],
)
  where
    id_or : Option Job → String
    id_or none = old.job_id
    id_or (some j) = j.job_id

pub Turn-Keyed :
    (now : ℕ) (child handle_id id : String) (s t : Stores)
    → Turn now child handle_id id s t
    → Keyed s.jobs
    → Keyed t.jobs
Turn-Keyed now child handle_id id s t turn keyed k job h = elim (Bool-cases (id == k)) [
  | inr other ↦ keyed k job (sym (turn.elsewhere k other) ∙ h)
  | inl same ↦
      let e = (eq_iff id k).0 same in
      let there = sym turn.at_id ∙ ap (get t.jobs) e ∙ h in
      elim (Bool-cases (id == child)) [
        | inl own ↦
            keyed id job
              (sym (ap (λ b. if b then get s.jobs id else cancelled (get s.jobs id)) own) ∙ there)
            ∙ e
        | inr sibling ↦
            let old = cancelled-id (get s.jobs id) job (
              sym (ap (λ b. if b then get s.jobs id else cancelled (get s.jobs id)) sibling)
              ∙ there) in
            sym old.2 ∙ keyed id old.0 old.1 ∙ e
      ]
]

pub get-record_child_failed :
    (now : ℕ) (joins : Dict JoinHandle) (handle_id id : String) (h : JoinHandle)
    → get joins handle_id ≡ some h
    → get (record_child_failed now joins handle_id id) handle_id ≡ some (report (failure now id) h)
unfolding record_child_failed report
get-record_child_failed now joins handle_id id h e =
    ap
      (λ x.
        get (elim x [ none ↦ joins | some g ↦ put joins handle_id (mark_child_failed now id g) ])
          handle_id)
      e
    ∙ (get-put_self joins handle_id (mark_child_failed now id h))
