-- ===== src/Tests/Todos.antt =====
-- The theorems on the store of todos, at a goal with two tasks.
use vai_core.Prelude.{
  ℕ, true, false, none, some, [], ◌∷◌, String, ◌≡◌, ◌≢◌, refl, ◌||◌, ◌==◌, ltb→lt, all, ltb,
  if◌then◌else◌,
}
use vai_core.Prelude.Members.{mem-all}
use vai_core.Planner.Todo.{
  failed, TodoRow, TodoStore, is_pending, is_in_progress, is_done, get_next_pending,
  has_work_remaining, is_complete,
}
use vai_core.Planner.Todo.Updates.{new_row, add_todo, mark_done, mark_failed}
use vai_core.Planner.Todo.Select.{IsNext, get_next_pending-IsNext}
use vai_core.Planner.Todo.Progress.{IsRunnable, get_next_pending_progress}
use vai_core.Planner.Todo.Completion.{turns, carried_out-is_complete}
use vai_core.Planner.Todo.Retries.{lookup, fails, mark_failed_bound}
use vai_core.Planner.Todo.Rows.{IsKept}
use vai_core.Planner.Todo.Keys.{adds, marks_done, Reachable, no_tables, next, Reachable-IsKept}

abbrev no_rows : TodoStore
no_rows = record { todos = []; deps = [] }

abbrev task_row : String → String → TodoRow
task_row now id = new_row now id "Doing" "" "task" "auth" "" 3

-- The second task depends on the first, which is pending.
abbrev store : TodoStore
store = record {
  todos = task_row "2026-02" "use-jwt" ∷ task_row "2026-01" "create-jwt" ∷ [];
  deps = record { todo_id = "use-jwt"; depends_on = "create-jwt"; goal_id = none } ∷ [];
}

get_next_pending-IsNext_example : IsNext store (get_next_pending store)
get_next_pending-IsNext_example = get_next_pending-IsNext store

abbrev place : String → ℕ
place id = if id == "use-jwt" then 1 else 0

store-IsRunnable : IsRunnable place store
unfolding all
store-IsRunnable = record {
  descends = λ d m.
      ltb→lt (place d.depends_on) (place d.todo_id)
        (mem-all (λ e. ltb (place e.depends_on) (place e.todo_id)) store.deps refl d m);
  typed = λ t m. mem-all (λ u. u.type == "goal" || u.type == "task") store.todos refl t m;
  unhurt = λ t m.
      mem-all (λ u. is_pending u.status || is_in_progress u.status || is_done u.status) store.todos
        refl t m;
}

get_next_pending_progress_example : get_next_pending store ≢ none
unfolding has_work_remaining
get_next_pending_progress_example = get_next_pending_progress place store store-IsRunnable refl

carried_out-is_complete_example : is_complete (turns (λ k. "2026-03") 2 store) ≡ true
carried_out-is_complete_example =
    carried_out-is_complete place (λ k. "2026-03") store store-IsRunnable

-- The third failure of a todo with three retries is its last.
mark_failed_bound_example :
    ((mark_failed "2026-03" "create-jwt" "boom" (fails "2026-03" "create-jwt" "boom" 2 store)).1
      ≡ false)
    × ((after : TodoRow) × (lookup
            (mark_failed "2026-03" "create-jwt" "boom"
              (fails "2026-03" "create-jwt" "boom" 2 store)).0
            "create-jwt"
          ≡ some after)
        × (after.status ≡ failed)
        × (after.retries_remaining ≡ 0))
unfolding lookup
mark_failed_bound_example =
    mark_failed_bound "2026-03" "create-jwt" "boom" 2 store (task_row "2026-01" "create-jwt") refl

abbrev one_row : TodoStore
one_row = record { todos = task_row "2026-01" "create-jwt" ∷ []; deps = [] }

one_row_reachable : Reachable one_row
unfolding add_todo
one_row_reachable = next no_tables (adds "2026-01" "create-jwt" "Doing" "" "task" "auth" "" 3 refl)

Reachable-IsKept_example : IsKept (mark_done "2026-02" "create-jwt" one_row)
Reachable-IsKept_example =
    Reachable-IsKept (mark_done "2026-02" "create-jwt" one_row)
      (next one_row_reachable (marks_done "2026-02" "create-jwt"))
