-- ===== src/Planner/Todo.antt =====
-- The store of todos (src/capabilities/planner/todo_store.py): its two SQLite tables are lists of
-- rows in the order of insertion, `now` is the text that `_now_iso` returns. Rows that
-- `ORDER BY created_at` leaves equal stay in the order of insertion.
pub mod Updates
pub mod Select
pub mod Rows
pub mod Keys
pub mod Progress
pub mod Completion
pub mod Retries
use vai_core.Prelude.{
  ℕ, ◌-◌, Bool, true, false, not, ◌&&◌, ◌||◌, Option, none, some, List, [], ◌∷◌, ◌++◌, map, String,
  ◌==◌, Result, ok, err, ◌>>=◌, if◌then◌else◌, ltb, eqb, length, any, keep,
}
use vai_core.Prelude.Texts.{text_lt}
use vai_core.Prelude.Sorting.{sorted, first}

pub data Status : Type 0 where
  pending in_progress done failed blocked : Status

-- A row of `todos`, which is also what `_row_to_item` copies of it.
pub record TodoRow : Type 0 where
  pub id : String
  pub title : String
  pub description : String
  pub status : Status
  pub type : String
  pub parent_goal_id : String
  pub retries_remaining : ℕ
  pub error_message : String
  pub completion_criterion : String
  pub created_at : String
  pub updated_at : String

-- A row of `todo_deps`; a dependency that `add_dep` inserts has no goal.
pub record DepRow : Type 0 where
  pub todo_id : String
  pub depends_on : String
  pub goal_id : Option String

pub record TodoStore : Type 0 where
  pub todos : List TodoRow
  pub deps : List DepRow

pub data TodoError : Type 0 where
  invalid_type : String → TodoError
  integrity_error : String → TodoError
  key_error : String → TodoError

-- `TodoItem`
pub record TodoItem : Type 0 where
  pub row : TodoRow
  pub depends_on : List String

abbrev pub is_pending : Status → Bool
is_pending pending = true
is_pending _ = false

abbrev pub is_in_progress : Status → Bool
is_in_progress in_progress = true
is_in_progress _ = false

abbrev pub is_done : Status → Bool
is_done done = true
is_done _ = false

-- `SELECT depends_on FROM todo_deps WHERE todo_id = ?`
unfoldable pub get_deps : TodoStore → String → List String
unfolding keep
get_deps store todo_id = map (λ d. d.depends_on) (keep (λ d. d.todo_id == todo_id) store.deps)

unfoldable pub get_dependents : TodoStore → String → List String
unfolding keep
get_dependents store todo_id = map (λ d. d.todo_id) (keep (λ d. d.depends_on == todo_id) store.deps)

unfoldable pub row_to_item : TodoStore → TodoRow → TodoItem
unfolding get_deps
row_to_item store row = record { row = row; depends_on = get_deps store row.id }

abbrev pub item_of : TodoStore → Option TodoRow → Option TodoItem
item_of store none = none
item_of store (some row) = some (row_to_item store row)

-- `ORDER BY created_at`
abbrev pub created_before : TodoRow → TodoRow → Bool
created_before x y = text_lt x.created_at y.created_at

-- `SELECT * FROM todos WHERE … ORDER BY created_at`
unfoldable pub select_where : TodoStore → (TodoRow → Bool) → List TodoRow
unfolding keep sorted
select_where store test = sorted created_before (keep test store.todos)

unfoldable pub get : TodoStore → String → Option TodoItem
unfolding keep row_to_item
get store todo_id = item_of store (first (keep (λ t. t.id == todo_id) store.todos))

unfoldable pub get_all : TodoStore → List TodoItem
unfolding select_where row_to_item
get_all store = map (row_to_item store) (select_where store (λ t. true))

unfoldable pub get_goals : TodoStore → List TodoItem
unfolding select_where row_to_item
get_goals store = map (row_to_item store) (select_where store (λ t. t.type == "goal"))

unfoldable pub get_goal_tasks : TodoStore → String → List TodoItem
unfolding select_where row_to_item
get_goal_tasks store goal_id =
    map (row_to_item store)
      (select_where store (λ t. t.parent_goal_id == goal_id && t.type == "task"))

-- The join of `todo_deps` with `todos`: a row of `todos` that `id` depends on and that is not done.
unfoldable pub has_open_dep : TodoStore → String → Bool
unfolding any
has_open_dep store id =
    any
      (λ d.
        d.todo_id == id
        && any (λ dep. d.depends_on == dep.id && not (is_done dep.status)) store.todos)
      store.deps

abbrev pub is_ready : TodoStore → String → TodoRow → Bool
is_ready store type t = is_pending t.status && t.type == type && not (has_open_dep store t.id)

abbrev pub or_row : Option TodoRow → Option TodoRow → Option TodoRow
or_row none other = other
or_row (some row) other = some row

-- The row that `get_next_pending` finds.
unfoldable pub next_row : TodoStore → Option TodoRow
unfolding select_where has_open_dep
next_row store = or_row (first (select_where store (λ t. is_in_progress t.status))) (
    or_row (first (select_where store (is_ready store "goal")))
      (first (select_where store (is_ready store "task"))))

unfoldable pub get_next_pending : TodoStore → Option TodoItem
unfolding next_row row_to_item
get_next_pending store = item_of store (next_row store)

unfoldable pub get_next_pending_for_goal : TodoStore → String → Option TodoItem
unfolding select_where has_open_dep row_to_item
get_next_pending_for_goal store goal_id = item_of store (
    or_row
      (first (
        select_where store
          (λ t. t.parent_goal_id == goal_id && t.type == "task" && is_in_progress t.status)))
      (first (select_where store (λ t. t.parent_goal_id == goal_id && is_ready store "task" t))))

unfoldable pub has_work_remaining : TodoStore → Bool
unfolding keep
has_work_remaining store =
    ltb 0 (length (keep (λ t. is_pending t.status || is_in_progress t.status) store.todos))

abbrev pub total_count : TodoStore → ℕ
total_count store = length store.todos

unfoldable pub done_count : TodoStore → ℕ
unfolding keep
done_count store = length (keep (λ t. is_done t.status) store.todos)

unfoldable pub is_complete : TodoStore → Bool
unfolding done_count
is_complete store = eqb (done_count store) (total_count store)
