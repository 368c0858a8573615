-- ===== src/Planner/Todo/Updates.antt =====
-- The operations that write to the store. An exception leaves the store as it was.
use vai_core.Prelude.{
  ℕ, ◌-◌, Bool, true, false, not, ◌&&◌, ◌||◌, Option, none, some, List, [], ◌∷◌, ◌++◌, String, ◌==◌,
  Result, ok, err, ◌>>=◌, if◌then◌else◌, ltb, any, keep,
}
use vai_core.Prelude.Sorting.{first}
use Prim.Native.String
use vai_core.Planner.Todo.{
  pending, in_progress, done, failed, blocked, TodoRow, DepRow, TodoStore, TodoError, invalid_type,
  integrity_error, key_error, is_pending,
}

-- The new row of an INSERT: `error_message` is the column's default.
abbrev pub new_row :
    (now id title description type parent_goal_id completion_criterion : String)
    (retries_remaining : ℕ)
    → TodoRow
new_row now id title description type parent_goal_id completion_criterion retries_remaining =
    record {
      id = id;
      title = title;
      description = description;
      status = pending;
      type = type;
      parent_goal_id = parent_goal_id;
      retries_remaining = retries_remaining;
      error_message = "";
      completion_criterion = completion_criterion;
      created_at = now;
      updated_at = now;
    }

unfoldable pub has_id : List TodoRow → String → Bool
unfolding any
has_id rows id = any (λ t. t.id == id) rows

unfoldable pub has_dep : List DepRow → (todo_id depends_on : String) → Bool
unfolding any
has_dep rows todo_id depends_on = any (λ d. d.todo_id == todo_id && d.depends_on == depends_on) rows

-- `INSERT INTO todos`, and `INSERT OR IGNORE` into each table: the keys are checked first.
unfoldable pub insert_todo : TodoRow → TodoStore → Result TodoError TodoStore
unfolding has_id
insert_todo row store =
    if has_id store.todos row.id
    then err (integrity_error row.id)
    else ok (record store { todos = store.todos ++ row ∷ [] })

unfoldable pub insert_or_ignore : TodoRow → TodoStore → TodoStore
unfolding has_id
insert_or_ignore row store =
    if has_id store.todos row.id then store else record store { todos = store.todos ++ row ∷ [] }

unfoldable pub insert_dep : DepRow → TodoStore → TodoStore
unfolding has_dep
insert_dep row store =
    if has_dep store.deps row.todo_id row.depends_on
    then store
    else record store { deps = store.deps ++ row ∷ [] }

unfoldable pub add_todo :
    (now todo_id title description type parent_goal_id completion_criterion : String)
    (retries_remaining : ℕ)
    → TodoStore
    → Result TodoError TodoStore
unfolding insert_todo
add_todo now todo_id title description type parent_goal_id completion_criterion retries_remaining
      store =
    if not (type == "task" || type == "goal")
    then err (invalid_type type)
    else insert_todo
        (new_row now todo_id title description type parent_goal_id completion_criterion
          retries_remaining)
        store

unfoldable pub add_goal :
    (now goal_id title description completion_criterion : String) (retries_remaining : ℕ)
    → TodoStore
    → Result TodoError TodoStore
unfolding add_todo
add_goal now goal_id title description completion_criterion retries_remaining =
    add_todo now goal_id title description "goal" "" completion_criterion retries_remaining

-- An item of a batch: a dict, whose keys may be missing.
pub record TodoSpec : Type 0 where
  pub id : Option String
  pub title : Option String
  pub description : Option String
  pub type : Option String
  pub parent_goal_id : Option String
  pub completion_criterion : Option String
  pub retries_remaining : Option ℕ
  pub depends_on : List String

abbrev pub or_default : {A : Type 0} → Option A → A → A
or_default none d = d
or_default (some a) d = a

unfoldable pub insert_deps : (todo_id goal_id : String) → List String → TodoStore → TodoStore
unfolding insert_dep
insert_deps todo_id goal_id [] store = store
insert_deps todo_id goal_id (dep ∷ ds) store =
    insert_deps todo_id goal_id ds
      (insert_dep (record { todo_id = todo_id; depends_on = dep; goal_id = some goal_id }) store)

-- One turn of the loop over the items, with `item["id"]` and `item["title"]`.
abbrev pub add_item :
    (now : String) → TodoSpec → (id title : Option String) → TodoStore → Result TodoError TodoStore
add_item now item none title store = err (key_error "id")
add_item now item (some id) none store = err (key_error "title")
add_item now item (some id) (some title) store =
    let goal_id = or_default item.parent_goal_id "" in
    let row =
      new_row now id title (or_default item.description "") (or_default item.type "task") goal_id
        (or_default item.completion_criterion "") (or_default item.retries_remaining 3) in
    ok (insert_deps id goal_id item.depends_on (insert_or_ignore row store))

-- The transaction is rolled back when a key is missing.
unfoldable pub add_todos_batch :
    (now : String) → List TodoSpec → TodoStore → Result TodoError TodoStore
unfolding insert_deps insert_or_ignore
add_todos_batch now [] store = ok store
add_todos_batch now (item ∷ items) store =
    add_item now item item.id item.title store >>= add_todos_batch now items

-- `UPDATE todos SET … WHERE …`
unfoldable pub update_where : (TodoRow → Bool) → (TodoRow → TodoRow) → List TodoRow → List TodoRow
update_where test set [] = []
update_where test set (t ∷ ts) =
    let rest = update_where test set ts in if test t then set t ∷ rest else t ∷ rest

abbrev pub update : (TodoRow → Bool) → (TodoRow → TodoRow) → TodoStore → TodoStore
update test set store = record store { todos = update_where test set store.todos }

-- `description || ?`, for the line that the f-string makes
abbrev pub progress_line : (description now summary : String) → String
progress_line description now summary =
    String.◌++◌ description
      (String.◌++◌ "\n[progress] " (String.◌++◌ now (String.◌++◌ ": " summary)))

unfoldable pub append_progress : (now goal_id summary : String) → TodoStore → TodoStore
unfolding update_where
append_progress now goal_id summary =
    update (λ t. t.id == goal_id)
      (λ t. record t { description = progress_line t.description now summary; updated_at = now })

unfoldable pub mark_in_progress : (now todo_id : String) → TodoStore → TodoStore
unfolding update_where
mark_in_progress now todo_id =
    update (λ t. t.id == todo_id && is_pending t.status)
      (λ t. record t { status = in_progress; updated_at = now })

unfoldable pub mark_done : (now todo_id : String) → TodoStore → TodoStore
unfolding update_where
mark_done now todo_id =
    update (λ t. t.id == todo_id) (λ t. record t { status = done; updated_at = now })

unfoldable pub mark_blocked : (now todo_id reason : String) → TodoStore → TodoStore
unfolding update_where
mark_blocked now todo_id reason =
    update (λ t. t.id == todo_id)
      (λ t. record t { status = blocked; error_message = reason; updated_at = now })

-- The two updates of `mark_failed`: `remaining` is what the row read has, less one.
abbrev pub fail_row :
    (now todo_id error_message : String) → (remaining : ℕ) → TodoStore → TodoStore × Bool
fail_row now todo_id error_message remaining store =
    if ltb 0 remaining
    then (
      update (λ t. t.id == todo_id)
          (λ t. record t {
            status = pending;
            retries_remaining = remaining;
            error_message = error_message;
            updated_at = now;
          })
          store,
      true,
    )
    else (
      update (λ t. t.id == todo_id)
          (λ t. record t {
            status = failed;
            retries_remaining = 0;
            error_message = error_message;
            updated_at = now;
          })
          store,
      false,
    )

abbrev pub fail_found :
    (now todo_id error_message : String) → Option TodoRow → TodoStore → TodoStore × Bool
fail_found now todo_id error_message none store = (store, false)
fail_found now todo_id error_message (some row) store =
    fail_row now todo_id error_message (row.retries_remaining - 1) store

-- A row with no retries left has a negative `remaining` in Python, which the test treats as 0.
unfoldable pub mark_failed : (now todo_id error_message : String) → TodoStore → TodoStore × Bool
unfolding update_where keep
mark_failed now todo_id error_message store =
    fail_found now todo_id error_message (first (keep (λ t. t.id == todo_id) store.todos)) store

unfoldable pub add_dep : (todo_id depends_on : String) → TodoStore → TodoStore
unfolding insert_dep
add_dep todo_id depends_on =
    insert_dep (record { todo_id = todo_id; depends_on = depends_on; goal_id = none })
