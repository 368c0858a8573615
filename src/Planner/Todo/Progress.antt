-- ===== src/Planner/Todo/Progress.antt =====
-- A plan whose dependencies have an order always has a next todo while work remains.
use vai_core.Prelude.{
  ℕ, zero, suc, ◌<◌, Bool, true, false, not, ◌&&◌, ◌||◌, none, List, [], ◌∷◌, String, ◌==◌, eq_iff,
  ltb, length, ◌≡◌, ◌≢◌, ap, subst, arith, keep, any,
}
use mathlib.Core.List.{Mem, mem-cons_self}
use vai_core.Prelude.Members.{mem-keep, mem-keep_test, any_found}
use vai_core.Planner.Todo.{
  Status, TodoRow, DepRow, TodoStore, is_pending, is_in_progress, is_done, has_open_dep,
  has_work_remaining, get_next_pending,
}
use vai_core.Planner.Todo.Select.{IsNext, get_next_pending-IsNext}

-- A plan that can be carried out: its dependencies descend in a rank of the ids, its rows are goals
-- and tasks, and none has failed or is blocked.
pub record IsRunnable (rank : String → ℕ) (store : TodoStore) : Type 0 where
  pub descends : (d : DepRow) → Mem d store.deps → rank d.depends_on < rank d.todo_id
  pub typed : (t : TodoRow) → Mem t store.todos → (t.type == "goal" || t.type == "task") ≡ true
  pub unhurt :
      (t : TodoRow)
      → Mem t store.todos
      → (is_pending t.status || is_in_progress t.status || is_done t.status) ≡ true

pub open_dep :
    (store : TodoStore) (id : String)
    → has_open_dep store id ≡ true
    → (d : DepRow) × (dep : TodoRow) × (Mem d store.deps)
      × (Mem dep store.todos)
      × (d.todo_id ≡ id)
      × (d.depends_on ≡ dep.id)
      × (is_done dep.status ≡ false)
unfolding has_open_dep
open_dep store id h =
    let waits_for : DepRow → TodoRow → Bool =
      λ d dep. d.depends_on == dep.id && not (is_done dep.status) in
    let (d, md, both) =
      any_found (λ d. d.todo_id == id && any (waits_for d) store.todos) store.deps h in
    let (dep, mt, found) =
      any_found (waits_for d) store.todos
        (right (d.todo_id == id) (any (waits_for d) store.todos) both) in
    (
      d,
      dep,
      md,
      mt,
      (eq_iff d.todo_id id).0 (left (d.todo_id == id) (any (waits_for d) store.todos) both),
      (eq_iff d.depends_on dep.id).0
          (left (d.depends_on == dep.id) (not (is_done dep.status)) found),
      ground (arith, right (d.depends_on == dep.id) (not (is_done dep.status)) found),
    )
  where
    left : (a b : Bool) → (a && b) ≡ true → a ≡ true
    left a b h = ground (arith, h)

    right : (a b : Bool) → (a && b) ≡ true → b ≡ true
    right a b h = ground (arith, h)

module _ (rank : String → ℕ) (store : TodoStore) (runnable : IsRunnable rank store)
    (nothing : IsNext store none) where
  waits :
      (t : TodoRow)
      → Mem t store.todos
      → is_pending t.status ≡ true
      → has_open_dep store t.id ≡ true
  waits t m p =
      open_of (is_pending t.status) (t.type == "goal") (t.type == "task") (has_open_dep store t.id)
        p (runnable.typed t m) (nothing.1 t m) (nothing.2 t m)
    where
      open_of :
          (a b c d : Bool)
          → a ≡ true
          → (b || c) ≡ true
          → (a && b && not d) ≡ false
          → (a && c && not d) ≡ false
          → d ≡ true
      open_of a b c d h k l n = ground (arith, h, k, l, n)

  -- No row is pending: a pending row of least rank would be ready.
  none_pending :
      (n : ℕ) (t : TodoRow) → Mem t store.todos → is_pending t.status ≡ true → rank t.id < n → ⊥
  none_pending zero t m p low = omega (arith, low)
  none_pending (suc n) t m p low =
      let (d, dep, md, mdep, from, to, open_) = open_dep store t.id (waits t m p) in
      let less = runnable.descends d md in
      none_pending n dep mdep
        (still_pending dep.status (nothing.0 dep mdep) (runnable.unhurt dep mdep) open_)
        (omega (arith, low, less, ap rank from, ap rank to))
    where
      still_pending :
          (s : Status)
          → is_in_progress s ≡ false
          → (is_pending s || is_in_progress s || is_done s) ≡ true
          → is_done s ≡ false
          → is_pending s ≡ true
      still_pending s idle good open_ = ground (arith, idle, good, open_)

  pub no_work :
      (t : TodoRow)
      → Mem t store.todos
      → (is_pending t.status || is_in_progress t.status) ≡ true
      → ⊥
  no_work t m h =
      none_pending (suc (rank t.id)) t m
        (pending_of (is_pending t.status) (is_in_progress t.status) h (nothing.0 t m)) (omega arith)
    where
      pending_of : (a b : Bool) → (a || b) ≡ true → b ≡ false → a ≡ true
      pending_of a b h k = ground (arith, h, k)

pub some_kept :
    (test : TodoRow → Bool) (ts : List TodoRow)
    → ltb 0 (length (keep test ts)) ≡ true
    → (t : TodoRow) × (Mem t ts) × (test t ≡ true)
some_kept test ts h =
    from (keep test ts) (λ t m. (mem-keep test ts t m, mem-keep_test test ts t m)) h
  where
    from :
        (l : List TodoRow)
        → ((t : TodoRow) → Mem t l → Mem t ts × (test t ≡ true))
        → ltb 0 (length l) ≡ true
        → (t : TodoRow) × (Mem t ts) × (test t ≡ true)
    from [] good h = absurd (cc h)
    from (t ∷ l) good h = let (m, p) = good t mem-cons_self in (t, m, p)

-- While todos are pending or in progress, and every todo is a goal or a task, the dependencies have
-- an order, and no todo has failed or is blocked, there is a next todo.
pub get_next_pending_progress :
    (rank : String → ℕ) (store : TodoStore)
    → IsRunnable rank store
    → has_work_remaining store ≡ true
    → get_next_pending store ≢ none
unfolding has_work_remaining
get_next_pending_progress rank store runnable work e =
    let (t, m, h) =
      some_kept (λ t. is_pending t.status || is_in_progress t.status) store.todos work in
    no_work rank store runnable (subst (IsNext store) e (get_next_pending-IsNext store)) t m h
