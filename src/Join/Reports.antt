-- ===== src/Join/Reports.antt =====
-- Sequences of reports on the children of a join handle, and the lists that they leave.
use vai_core.Prelude.{
  ℕ, Bool, false, ◌||◌, ◌&&◌, List, [], ◌∷◌, String, ◌≡◌, ◌≢◌, refl, inl, inr, elem, ◌==◌, eq_iff,
  arith, Bool-cases,
}
use vai_core.Join.{
  JoinHandle, waiting, is_ready, advance, add, mark_child_completed, mark_child_failed,
}
use vai_core.Join.Count.{IsValid, add-elem, mark_child_completed-IsValid, mark_child_failed-IsValid}

-- One call of `mark_child_completed` or `mark_child_failed`, with its time.
pub data Report : Type 0 where
  success failure : (now : ℕ) → (child : String) → Report

unfoldable pub report : Report → JoinHandle → JoinHandle
unfolding mark_child_completed mark_child_failed
report (success now child) h = mark_child_completed now child h
report (failure now child) h = mark_child_failed now child h

unfoldable pub report_all : List Report → JoinHandle → JoinHandle
unfolding report
report_all [] h = h
report_all (r ∷ rs) h = report_all rs (report r h)

unfoldable pub has_success : List Report → String → Bool
has_success [] x = false
has_success (success now y ∷ rs) x = y == x || has_success rs x
has_success (failure now y ∷ rs) x = has_success rs x

unfoldable pub has_failure : List Report → String → Bool
has_failure [] x = false
has_failure (success now y ∷ rs) x = has_failure rs x
has_failure (failure now y ∷ rs) x = y == x || has_failure rs x

-- The handle as the executor saves it, before any child has ended.
pub record IsFresh (h : JoinHandle) : Type 0 where
  pub no_completed : h.completed_ids ≡ []
  pub no_failed : h.failed_ids ≡ []
  pub is_waiting : h.state ≡ waiting
  pub has_children : h.child_job_ids ≢ []

-- What the reports did to the handle.
pub record Reached (before after : JoinHandle) (rs : List Report) : Type 0 where
  pub same_children : after.child_job_ids ≡ before.child_job_ids
  pub completed_are :
      (x : String)
      → elem x after.completed_ids
        ≡ (elem x before.completed_ids || (elem x before.child_job_ids && has_success rs x))
  pub failed_are :
      (x : String)
      → elem x after.failed_ids
        ≡ (elem x before.failed_ids || (elem x before.child_job_ids && has_failure rs x))

abbrev SameSets : JoinHandle → JoinHandle → Type 0
SameSets g h =
    (g.child_job_ids ≡ h.child_job_ids)
    × (g.completed_ids ≡ h.completed_ids)
    × (g.failed_ids ≡ h.failed_ids)

advance-SameSets : (now : ℕ) (h : JoinHandle) → SameSets (advance now h) h
unfolding advance
advance-SameSets now h = elim (Bool-cases (is_ready h)) [
  | inl r ↦ rw r (refl, refl, refl)
  | inr r ↦ rw r (refl, refl, refl)
]

success-sets :
    (now : ℕ) (child : String) (h : JoinHandle)
    → ((mark_child_completed now child h).child_job_ids ≡ h.child_job_ids)
      × ((x : String)
          → elem x (mark_child_completed now child h).completed_ids
            ≡ (elem x h.completed_ids || (elem x h.child_job_ids && child == x)))
      × ((mark_child_completed now child h).failed_ids ≡ h.failed_ids)
unfolding mark_child_completed
success-sets now child h = elim (Bool-cases (elem child h.child_job_ids)) [
  | inl known ↦
      let sets = advance-SameSets now (record h { completed_ids = add child h.completed_ids }) in
      rw known (
        sets.0,
        λ x. rw sets.1 (ground (arith, known, add-elem child x h.completed_ids, eq_iff child x)),
        sets.2,
      )
  | inr stranger ↦ rw stranger (refl, λ x. ground (arith, stranger, eq_iff child x), refl)
]

pub failure-sets :
    (now : ℕ) (child : String) (h : JoinHandle)
    → ((mark_child_failed now child h).child_job_ids ≡ h.child_job_ids)
      × ((x : String)
          → elem x (mark_child_failed now child h).failed_ids
            ≡ (elem x h.failed_ids || (elem x h.child_job_ids && child == x)))
      × ((mark_child_failed now child h).completed_ids ≡ h.completed_ids)
unfolding mark_child_failed
failure-sets now child h = elim (Bool-cases (elem child h.child_job_ids)) [
  | inl known ↦
      let sets = advance-SameSets now (record h { failed_ids = add child h.failed_ids }) in
      rw known (
        sets.0,
        λ x. rw sets.2 (ground (arith, known, add-elem child x h.failed_ids, eq_iff child x)),
        sets.1,
      )
  | inr stranger ↦ rw stranger (refl, λ x. ground (arith, stranger, eq_iff child x), refl)
]

report-IsValid : (r : Report) (h : JoinHandle) → IsValid h → IsValid (report r h)
unfolding report
report-IsValid (success now child) h v = mark_child_completed-IsValid now child h v
report-IsValid (failure now child) h v = mark_child_failed-IsValid now child h v

pub report_all-IsValid : (rs : List Report) (h : JoinHandle) → IsValid h → IsValid (report_all rs h)
unfolding report_all
report_all-IsValid [] h v = v
report_all-IsValid (r ∷ rs) h v = report_all-IsValid rs (report r h) (report-IsValid r h v)

pub report_all-Reached : (rs : List Report) (h : JoinHandle) → Reached h (report_all rs h) rs
unfolding report_all report has_success has_failure
report_all-Reached [] h = record {
  same_children = refl;
  completed_are = λ x. ground arith;
  failed_are = λ x. ground arith;
}
report_all-Reached (success now child ∷ rs) h =
    let one = success-sets now child h in
    let rest = report_all-Reached rs (mark_child_completed now child h) in
    record {
      same_children = cc (one.0, rest.same_children);
      completed_are = λ x. rw (rest.completed_are x, one.0, one.1 x) (ground arith);
      failed_are = λ x. rw (rest.failed_are x, one.0, one.2) refl;
    }
report_all-Reached (failure now child ∷ rs) h =
    let one = failure-sets now child h in
    let rest = report_all-Reached rs (mark_child_failed now child h) in
    record {
      same_children = cc (one.0, rest.same_children);
      completed_are = λ x. rw (rest.completed_are x, one.0, one.2) refl;
      failed_are = λ x. rw (rest.failed_are x, one.0, one.1 x) (ground arith);
    }
