-- ===== src/Planner/Todo/Keys.antt =====
-- Whatever is written to the store, its keys stay unique, and a failed todo has no retries left.
use vai_core.Prelude.{
  ℕ, ◌-◌, Bool, true, false, ◌||◌, Option, none, some, List, [], ◌∷◌, String, ◌==◌, ok, >>=-eq-ok,
  ◌≡◌, refl, ap, ◌∙◌, subst, inl, inr, Bool-cases, ltb, any, keep, All,
}
use vai_core.Prelude.Sorting.{first}
use vai_core.Planner.Todo.{TodoRow, TodoStore}
use vai_core.Planner.Todo.Updates.{
  has_id, insert_or_ignore, insert_deps, add_todo, TodoSpec, or_default, add_item, add_todos_batch,
  new_row, update_where, update, append_progress, mark_in_progress, mark_done, mark_blocked,
  fail_found, mark_failed, add_dep,
}
use vai_core.Planner.Todo.Rows.{
  UniqueIds, Spent, IsKept, insert_dep-IsKept, insert_deps-IsKept, insert_or_ignore-IsKept,
  insert_todo-IsKept,
}

module _ (test : TodoRow → Bool) (set : TodoRow → TodoRow)
    (same : (t : TodoRow) → (set t).id ≡ t.id) where
  has_id-update_where :
      (ts : List TodoRow) (id : String) → has_id (update_where test set ts) id ≡ has_id ts id
  unfolding has_id any update_where
  has_id-update_where [] id = refl
  has_id-update_where (t ∷ ts) id = elim (Bool-cases (test t)) [
    | inl hit ↦ rw hit (
        ap (λ j. j == id || has_id (update_where test set ts) id) (same t)
        ∙ ap (λ b. t.id == id || b) (has_id-update_where ts id))
    | inr miss ↦ rw (miss, has_id-update_where ts id) refl
  ]

  update_where-UniqueIds : (ts : List TodoRow) → UniqueIds ts → UniqueIds (update_where test set ts)
  unfolding update_where
  update_where-UniqueIds [] u = tt
  update_where-UniqueIds (t ∷ ts) (fresh, u) = elim (Bool-cases (test t)) [
    | inl hit ↦ rw hit (
      has_id-update_where ts (set t).id ∙ ap (has_id ts) (same t) ∙ fresh,
      update_where-UniqueIds ts u,
    )
    | inr miss ↦ rw miss (has_id-update_where ts t.id ∙ fresh, update_where-UniqueIds ts u)
  ]

  update_where-Spent :
      (ts : List TodoRow)
      → ((t : TodoRow) → Spent t → Spent (set t))
      → All Spent ts
      → All Spent (update_where test set ts)
  unfolding update_where
  update_where-Spent [] spends all_spent = tt
  update_where-Spent (t ∷ ts) spends (here, all_spent) = elim (Bool-cases (test t)) [
    | inl hit ↦ rw hit (spends t here, update_where-Spent ts spends all_spent)
    | inr miss ↦ rw miss (here, update_where-Spent ts spends all_spent)
  ]

  pub update-IsKept :
      (store : TodoStore)
      → ((t : TodoRow) → Spent t → Spent (set t))
      → IsKept store
      → IsKept (update test set store)
  update-IsKept store spends (ids, spent, deps) =
      (update_where-UniqueIds store.todos ids, update_where-Spent store.todos spends spent, deps)

-- One write to the store.
pub data Step : TodoStore → TodoStore → Type 0 where
  adds :
      {store after : TodoStore}
      (now todo_id title description type parent_goal_id completion_criterion : String)
      (retries_remaining : ℕ)
      → add_todo now todo_id title description type parent_goal_id completion_criterion
          retries_remaining store
        ≡ ok after
      → Step store after
  adds_batch :
      {store after : TodoStore} (now : String) (items : List TodoSpec)
      → add_todos_batch now items store ≡ ok after
      → Step store after
  appends_progress :
      {store : TodoStore} (now goal_id summary : String)
      → Step store (append_progress now goal_id summary store)
  marks_in_progress :
      {store : TodoStore} (now todo_id : String) → Step store (mark_in_progress now todo_id store)
  marks_done : {store : TodoStore} (now todo_id : String) → Step store (mark_done now todo_id store)
  marks_blocked :
      {store : TodoStore} (now todo_id reason : String)
      → Step store (mark_blocked now todo_id reason store)
  marks_failed :
      {store : TodoStore} (now todo_id error_message : String)
      → Step store (mark_failed now todo_id error_message store).0
  adds_dep :
      {store : TodoStore} (todo_id depends_on : String)
      → Step store (add_dep todo_id depends_on store)

-- What can come of a store that starts with empty tables.
pub data Reachable : TodoStore → Type 0 where
  no_tables : Reachable (record { todos = []; deps = [] })
  next : {store after : TodoStore} → Reachable store → Step store after → Reachable after

unspent : {A : Type 0} → false ≡ true → A
unspent e = absurd (cc e)

add_todo-IsKept :
    (now todo_id title description type parent_goal_id completion_criterion : String)
    (retries_remaining : ℕ) (store after : TodoStore)
    → IsKept store
    → add_todo now todo_id title description type parent_goal_id completion_criterion
        retries_remaining store
      ≡ ok after
    → IsKept after
unfolding add_todo
add_todo-IsKept now todo_id title description type parent_goal_id completion_criterion
      retries_remaining store after kept run =
    elim (Bool-cases (type == "task" || type == "goal")) [
      | inr wrong ↦ absurd (cc (rw wrong at run))
      | inl right ↦
          insert_todo-IsKept
            (new_row now todo_id title description type parent_goal_id completion_criterion
              retries_remaining)
            store after (λ e. unspent e) kept (rw right at run)
    ]

add_item-IsKept :
    (now : String) (item : TodoSpec) (id title : Option String) (store after : TodoStore)
    → IsKept store
    → add_item now item id title store ≡ ok after
    → IsKept after
add_item-IsKept now item none title store after kept run = absurd (cc run)
add_item-IsKept now item (some id) none store after kept run = absurd (cc run)
add_item-IsKept now item (some id) (some title) store after kept run =
    let goal_id = or_default item.parent_goal_id "" in
    let row =
      new_row now id title (or_default item.description "") (or_default item.type "task") goal_id
        (or_default item.completion_criterion "") (or_default item.retries_remaining 3) in
    let same : insert_deps id goal_id item.depends_on (insert_or_ignore row store) ≡ after =
      cc run in
    subst IsKept same (
      insert_deps-IsKept id goal_id item.depends_on (insert_or_ignore row store)
        (insert_or_ignore-IsKept row store (λ e. unspent e) kept))

add_todos_batch-IsKept :
    (now : String) (items : List TodoSpec) (store after : TodoStore)
    → IsKept store
    → add_todos_batch now items store ≡ ok after
    → IsKept after
unfolding add_todos_batch
add_todos_batch-IsKept now [] store after kept run =
    let same : store ≡ after = cc run in subst IsKept same kept
add_todos_batch-IsKept now (item ∷ items) store after kept run =
    let (middle, first, then_) =
      >>=-eq-ok (add_item now item item.id item.title store) (add_todos_batch now items) run in
    add_todos_batch-IsKept now items middle after
      (add_item-IsKept now item item.id item.title store middle kept first) then_

mark_failed-IsKept :
    (now todo_id error_message : String) (store : TodoStore) (found : Option TodoRow)
    → IsKept store
    → IsKept (fail_found now todo_id error_message found store).0
mark_failed-IsKept now todo_id error_message store none kept = kept
mark_failed-IsKept now todo_id error_message store (some row) kept =
    elim (Bool-cases (ltb 0 (row.retries_remaining - 1))) [
      | inl left ↦
          rw left
            (update-IsKept (λ t. t.id == todo_id) _ (λ t. refl) store (λ t s e. unspent e) kept)
      | inr none_left ↦
          rw none_left
            (update-IsKept (λ t. t.id == todo_id) _ (λ t. refl) store (λ t s e. refl) kept)
    ]

Step-IsKept : (store after : TodoStore) → IsKept store → Step store after → IsKept after
unfolding append_progress mark_in_progress mark_done mark_blocked mark_failed add_dep
Step-IsKept store after kept (adds now id title description type goal criterion retries run) =
    add_todo-IsKept now id title description type goal criterion retries store after kept run
Step-IsKept store after kept (adds_batch now items run) =
    add_todos_batch-IsKept now items store after kept run
Step-IsKept store after kept (appends_progress now id summary) =
    update-IsKept _ _ (λ t. refl) store (λ t s. s) kept
Step-IsKept store after kept (marks_in_progress now id) =
    update-IsKept _ _ (λ t. refl) store (λ t s e. unspent e) kept
Step-IsKept store after kept (marks_done now id) =
    update-IsKept _ _ (λ t. refl) store (λ t s e. unspent e) kept
Step-IsKept store after kept (marks_blocked now id reason) =
    update-IsKept _ _ (λ t. refl) store (λ t s e. unspent e) kept
Step-IsKept store after kept (marks_failed now id message) =
    mark_failed-IsKept now id message store (first (keep (λ t. t.id == id) store.todos)) kept
Step-IsKept store after kept (adds_dep id dep) = insert_dep-IsKept _ store kept

-- However a store was written to since its tables were created, no id stands twice in it, no
-- dependency stands twice, and every failed todo has no retries left.
pub Reachable-IsKept : (store : TodoStore) → Reachable store → IsKept store
Reachable-IsKept store no_tables = (tt, tt, tt)
Reachable-IsKept store (next r s) = Step-IsKept _ store (Reachable-IsKept _ r) s
