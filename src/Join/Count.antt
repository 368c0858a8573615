-- ===== src/Join/Count.antt =====
-- The counts that the handle goes by, and the operations that keep them.
use vai_core.Prelude.{
  ℕ, ◌≤◌, true, false, ◌||◌, List, [], ◌∷◌, String, some, ◌≡◌, refl, inl, inr, length,
  length-append, elem, elem-append, Distinct, ◌==◌, eq_iff, arith, if◌then◌else◌, Bool-cases,
}
use vai_core.Join.{
  JoinHandle, JoinHandleState, waiting, completed, failed, is_ready, all_succeeded, advance, add,
  mark_child_completed, mark_child_failed,
}
use vai_core.Prelude.Pigeonhole.{Within, snoc-Distinct}

-- The state that the counts call for.
abbrev pub verdict : JoinHandle → JoinHandleState
verdict h = if is_ready h then (if all_succeeded h then completed else failed) else waiting

pub record IsValid (h : JoinHandle) : Type 0 where
  pub completed_once : Distinct h.completed_ids
  pub completed_within : Within h.completed_ids h.child_job_ids
  pub failed_once : Distinct h.failed_ids
  pub failed_within : Within h.failed_ids h.child_job_ids
  pub decided : h.state ≡ verdict h

add-Distinct : (x : String) (xs : List String) → Distinct xs → Distinct (add x xs)
unfolding add
add-Distinct x xs d = elim (Bool-cases (elem x xs)) [
  | inl old ↦ rw old d
  | inr new ↦ rw new (snoc-Distinct x xs d new)
]

pub add-elem : (x z : String) (xs : List String) → elem z (add x xs) ≡ (x == z || elem z xs)
unfolding add elem
add-elem x z xs = ground (arith, elem-append z xs (x ∷ []), eq_iff x z)

add-Within :
    (x : String) (xs ys : List String) → elem x ys ≡ true → Within xs ys → Within (add x xs) ys
add-Within x xs ys there sub z h = ground (arith, add-elem x z xs, eq_iff x z, sub z)

verdict-set :
    (now : ℕ) (state : JoinHandleState) (h : JoinHandle)
    → verdict (record h { state = state; completed_at = some now }) ≡ verdict h
unfolding is_ready all_succeeded
verdict-set now state h = refl

-- `advance` sets the state that the counts call for.
advance-IsValid :
    (now : ℕ) (h : JoinHandle)
    → Distinct h.completed_ids
    → Within h.completed_ids h.child_job_ids
    → Distinct h.failed_ids
    → Within h.failed_ids h.child_job_ids
    → (is_ready h ≡ false → h.state ≡ waiting)
    → IsValid (advance now h)
unfolding advance
advance-IsValid now h cd cw fd fw open_state = elim (Bool-cases (is_ready h)) [
  | inl r ↦ rw r (record {
    completed_once = cd;
    completed_within = cw;
    failed_once = fd;
    failed_within = fw;
    decided = rw (verdict-set now (if all_succeeded h then completed else failed) h) (rw r);
  })
  | inr r ↦ rw r (record {
    completed_once = cd;
    completed_within = cw;
    failed_once = fd;
    failed_within = fw;
    decided = rw r (open_state r);
  })
]

length-add-le : (x : String) (xs : List String) → length xs ≤ length (add x xs)
unfolding add
length-add-le x xs = ground (arith, length-append xs (x ∷ []))

still_waiting-completed :
    (child : String) (h : JoinHandle)
    → IsValid h
    → is_ready (record h { completed_ids = add child h.completed_ids }) ≡ false
    → h.state ≡ waiting
unfolding is_ready
still_waiting-completed child h v r = ground (arith, v.decided, length-add-le child h.completed_ids)

still_waiting-failed :
    (child : String) (h : JoinHandle)
    → IsValid h
    → is_ready (record h { failed_ids = add child h.failed_ids }) ≡ false
    → h.state ≡ waiting
unfolding is_ready
still_waiting-failed child h v r = ground (arith, v.decided, length-add-le child h.failed_ids)

pub mark_child_completed-IsValid :
    (now : ℕ) (child : String) (h : JoinHandle)
    → IsValid h
    → IsValid (mark_child_completed now child h)
unfolding mark_child_completed
mark_child_completed-IsValid now child h v = elim (Bool-cases (elem child h.child_job_ids)) [
  | inr stranger ↦ rw stranger v
  | inl known ↦ rw known (
      advance-IsValid now (record h { completed_ids = add child h.completed_ids })
        (add-Distinct child h.completed_ids v.completed_once)
        (add-Within child h.completed_ids h.child_job_ids known v.completed_within) v.failed_once
        v.failed_within (still_waiting-completed child h v))
]

pub mark_child_failed-IsValid :
    (now : ℕ) (child : String) (h : JoinHandle)
    → IsValid h
    → IsValid (mark_child_failed now child h)
unfolding mark_child_failed
mark_child_failed-IsValid now child h v = elim (Bool-cases (elem child h.child_job_ids)) [
  | inr stranger ↦ rw stranger v
  | inl known ↦ rw known (
      advance-IsValid now (record h { failed_ids = add child h.failed_ids }) v.completed_once
        v.completed_within (add-Distinct child h.failed_ids v.failed_once)
        (add-Within child h.failed_ids h.child_job_ids known v.failed_within)
        (still_waiting-failed child h v))
]
