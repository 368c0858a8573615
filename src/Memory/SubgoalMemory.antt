-- ===== src/Memory/SubgoalMemory.antt =====
-- The store of subgoals (src/agent/memory/subgoal_memory.py). The canonical hash of a subgoal, which
-- is computed from its other fields, is left out.
pub mod Chain
use vai_core.Prelude.{
  ℕ, zero, suc, Bool, true, false, ◌||◌, ◌&&◌, Option, none, some, List, [], ◌∷◌, ◌++◌, map, String,
  ◌==◌, Result, ok, err, ltb, length, elem, keep, if◌then◌else◌,
}
use vai_core.Prelude.Dict.{Dict, get, put, remove, keys, values}
use vai_core.Prelude.Texts.{text_lt}
use vai_core.Prelude.Sorting.{sorted}
use vai_core.Memory.Records.{SubgoalMemoryRecord}
use vai_core.Memory.Lifecycle.{
  SubgoalLifecycleState, pending, active, satisfied, abandoned, closed, created, validated, ready,
  running, success, failed, blocked, retrying,
}

pub record Subgoal : Type 0 where
  pub subgoal_id : String
  pub goal : String
  pub context : String
  pub metadata : String
  pub parent_id : Option String
  pub state : SubgoalLifecycleState
  pub created_at : ℕ

-- `state.value`
abbrev pub value : SubgoalLifecycleState → String
value pending = "pending"
value active = "active"
value satisfied = "satisfied"
value abandoned = "abandoned"
value closed = "closed"
value created = "created"
value validated = "validated"
value ready = "ready"
value running = "running"
value success = "success"
value failed = "failed"
value blocked = "blocked"
value retrying = "retrying"

abbrev states : List SubgoalLifecycleState
states =
    pending ∷ active ∷ satisfied ∷ abandoned ∷ closed ∷ created ∷ validated ∷ ready ∷ running
    ∷ success ∷ failed ∷ blocked ∷ retrying ∷ []

unfoldable find_state : String → List SubgoalLifecycleState → Option SubgoalLifecycleState
find_state text [] = none
find_state text (s ∷ ss) = if value s == text then some s else find_state text ss

-- `SubgoalLifecycleState(text)`, a `ValueError` on any other text
pub data ValueError : Type 0 where
  no_state : String → ValueError

abbrev or_error : String → Option SubgoalLifecycleState → Result ValueError SubgoalLifecycleState
or_error text none = err (no_state text)
or_error text (some s) = ok s

unfoldable pub state_of : String → Result ValueError SubgoalLifecycleState
unfolding find_state
state_of text = or_error text (find_state text states)

abbrev pub Store : Type 0
Store = Dict SubgoalMemoryRecord

abbrev pub record_of : Subgoal → SubgoalMemoryRecord
record_of subgoal = record {
  subgoal_id = subgoal.subgoal_id;
  parent_id = subgoal.parent_id;
  state = value subgoal.state;
  goal = subgoal.goal;
  context = subgoal.context;
  metadata = subgoal.metadata;
  created_at = subgoal.created_at;
}

-- `SubgoalMemory.put`
unfoldable pub put_subgoal : Subgoal → Store → Store
unfolding put
put_subgoal subgoal store = put store subgoal.subgoal_id (record_of subgoal)

abbrev pub with_state :
    SubgoalMemoryRecord
    → Result ValueError SubgoalLifecycleState
    → Result ValueError (Option Subgoal)
with_state r (err e) = err e
with_state r (ok s) = ok (
    some record {
      subgoal_id = r.subgoal_id;
      goal = r.goal;
      context = r.context;
      metadata = r.metadata;
      parent_id = r.parent_id;
      state = s;
      created_at = r.created_at;
    })

-- `_record_to_subgoal`, for a record that was found
abbrev pub to_subgoal : Option SubgoalMemoryRecord → Result ValueError (Option Subgoal)
to_subgoal none = ok none
to_subgoal (some r) = with_state r (state_of r.state)

-- `SubgoalMemory.get`
unfoldable pub get_subgoal : Store → String → Result ValueError (Option Subgoal)
unfolding get state_of
get_subgoal store subgoal_id = to_subgoal (get store subgoal_id)

unfoldable pub exists : Store → String → Bool
unfolding elem
exists store subgoal_id = elem subgoal_id (keys store)

-- `(x.created_at, x.subgoal_id) < (y.created_at, y.subgoal_id)`
unfoldable pub created_first : SubgoalMemoryRecord → SubgoalMemoryRecord → Bool
created_first x y =
    if ltb x.created_at y.created_at
    then true
    else if ltb y.created_at x.created_at
    then false
    else text_lt x.subgoal_id y.subgoal_id

abbrev pub is_parent : String → Option String → Bool
is_parent parent_id none = false
is_parent parent_id (some p) = p == parent_id

unfoldable pub get_children : Store → String → List SubgoalMemoryRecord
unfolding keep sorted created_first
get_children store parent_id =
    sorted created_first (keep (λ r. is_parent parent_id r.parent_id) (values store))

unfoldable pub remove_all : List String → Store → Store
unfolding remove
remove_all [] store = store
remove_all (id ∷ ids) store = remove_all ids (remove store id)

unfoldable pub snapshot : Store → List SubgoalMemoryRecord
unfolding sorted created_first
snapshot store = sorted created_first (values store)

unfoldable pub load_records : List SubgoalMemoryRecord → Store → Store
unfolding put
load_records [] store = store
load_records (r ∷ rs) store = load_records rs (put store r.subgoal_id r)

-- `current_id and current_id not in visited`
abbrev pub wanted : Option String → (visited : List String) → Option String
wanted none visited = none
wanted (some id) visited = if id == "" || elem id visited then none else some id

abbrev pub cons_to :
    SubgoalMemoryRecord → Option (List SubgoalMemoryRecord) → Option (List SubgoalMemoryRecord)
cons_to r none = none
cons_to r (some links) = some (r ∷ links)

abbrev pub on_record :
    (walk : Option String → List String → Option (List SubgoalMemoryRecord))
    → (id : String) (visited : List String) → Option SubgoalMemoryRecord
    → Option (List SubgoalMemoryRecord)
on_record walk id visited none = some []
on_record walk id visited (some r) =
    cons_to r (walk (wanted r.parent_id (id ∷ visited)) (id ∷ visited))

-- The loop of `get_chain`, on fuel: the links from the leaf upward.
unfoldable pub walk :
    (fuel : ℕ) → Store → Option String → (visited : List String) → Option (List SubgoalMemoryRecord)
unfolding get elem
walk fuel store none visited = some []
walk zero store (some id) visited = none
walk (suc fuel) store (some id) visited = on_record (walk fuel store) id visited (get store id)

abbrev pub reverse : List SubgoalMemoryRecord → List SubgoalMemoryRecord
reverse [] = []
reverse (r ∷ rs) = reverse rs ++ r ∷ []

abbrev pub reversed : Option (List SubgoalMemoryRecord) → Option (List SubgoalMemoryRecord)
reversed none = none
reversed (some links) = some (reverse links)

unfoldable pub get_chain : Store → String → Option (List SubgoalMemoryRecord)
unfolding walk
get_chain store subgoal_id =
    reversed (walk (suc (length (keys store))) store (wanted (some subgoal_id) []) [])
