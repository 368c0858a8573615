-- ===== src/Join.antt =====
-- Fan-in coordination: the join handle (src/platform/runtime/join_handle.py) and the operations of
-- its in-memory store (src/platform/runtime/job_store/backends/in_memory_join_store.py).
pub mod Count
pub mod Reports
pub mod Settled
pub mod Store
use vai_core.Prelude.{
  ℕ, ◌+◌, Bool, true, false, ◌&&◌, Option, none, some, List, [], ◌∷◌, ◌++◌, String, length, leb,
  eqb, elem, if◌then◌else◌,
}
use vai_core.Prelude.Dict.{Dict, get, put}

pub data JoinHandleState : Type 0 where
  waiting completed failed : JoinHandleState

pub record JoinHandle : Type 0 where
  pub join_handle_id : String
  pub parent_job_id : String
  pub plan_id : String
  pub child_job_ids : List String
  pub completed_ids : List String
  pub failed_ids : List String
  pub state : JoinHandleState
  pub merge_strategy : String
  pub merge_agent_id : Option String
  pub created_at : ℕ
  pub completed_at : Option ℕ

unfoldable pub is_ready : JoinHandle → Bool
is_ready h = leb (length h.child_job_ids) (length h.completed_ids + length h.failed_ids)

unfoldable pub all_succeeded : JoinHandle → Bool
all_succeeded h =
    eqb (length h.completed_ids) (length h.child_job_ids) && eqb (length h.failed_ids) 0

-- `_advance`, at the time `now`.
unfoldable pub advance : (now : ℕ) → JoinHandle → JoinHandle
unfolding is_ready all_succeeded
advance now h =
    if is_ready h
    then record h { completed_at = some now; state = if all_succeeded h then completed else failed }
    else h

-- `if x not in xs: xs.append(x)`
unfoldable pub add : String → List String → List String
unfolding elem
add x xs = if elem x xs then xs else xs ++ x ∷ []

unfoldable pub mark_child_completed : (now : ℕ) → String → JoinHandle → JoinHandle
unfolding elem add advance
mark_child_completed now child h =
    if elem child h.child_job_ids
    then advance now (record h { completed_ids = add child h.completed_ids })
    else h

unfoldable pub mark_child_failed : (now : ℕ) → String → JoinHandle → JoinHandle
unfolding elem add advance
mark_child_failed now child h =
    if elem child h.child_job_ids
    then advance now (record h { failed_ids = add child h.failed_ids })
    else h

-- The stored handle is changed in place.
abbrev pub update : Dict JoinHandle → String → (JoinHandle → JoinHandle) → Dict JoinHandle
update store id f = elim (get store id) [ none ↦ store | some h ↦ put store id (f h) ]

unfoldable pub record_child_completed :
    (now : ℕ) → Dict JoinHandle → (handle_id child_job_id : String) → Dict JoinHandle
unfolding get put mark_child_completed
record_child_completed now store handle_id child =
    update store handle_id (mark_child_completed now child)

unfoldable pub record_child_failed :
    (now : ℕ) → Dict JoinHandle → (handle_id child_job_id : String) → Dict JoinHandle
unfolding get put mark_child_failed
record_child_failed now store handle_id child = update store handle_id (mark_child_failed now child)
