-- ===== src/Planner/Todo/Completion.antt =====
-- A plan that is carried out by asking for the next todo, starting it and completing it, again and
-- again, which is what a `TodoWorker` does with tasks that succeed (src/agent/planner/todo_worker.py).
use vai_core.Prelude.{
  ℕ, zero, suc, ◌+◌, ◌≤◌, ◌<◌, Bool, true, not, ◌&&◌, ◌||◌, none, some, Option, List, [], ◌∷◌,
  String, ◌==◌, eq_refl, ltb, length, ◌≡◌, refl, sym, ap, ◌∙◌, inl, inr, arith, keep, Bool-cases,
}
use mathlib.Core.List.{Mem, mem-cons, mem-cons_self, not-mem-nil}
use mathlib.Core.Logic.Or
use native.Mathlib.Bridge.{le_prop}
use vai_core.Planner.Todo.{
  Status, in_progress, done, TodoRow, TodoStore, TodoItem, is_pending, is_in_progress, is_done,
  get_next_pending, total_count, done_count, is_complete,
}
use vai_core.Planner.Todo.Updates.{update_where, mark_in_progress, mark_done}
use vai_core.Planner.Todo.Select.{IsNext, get_next_pending-IsNext}
use vai_core.Planner.Todo.Progress.{IsRunnable, no_work, some_kept}

-- A turn of the one who carries the plan out.
abbrev turn_on : (now : String) → Option TodoItem → TodoStore → TodoStore
turn_on now none store = store
turn_on now (some item) store = mark_done now item.row.id (mark_in_progress now item.row.id store)

-- `n` turns, at the times of a clock.
unfoldable pub turns : (clock : ℕ → String) → ℕ → TodoStore → TodoStore
turns clock zero store = store
turns clock (suc n) store = turns clock n (turn_on (clock n) (get_next_pending store) store)

abbrev open_row : TodoRow → Bool
open_row t = not (is_done t.status)

unfoldable open_count : List TodoRow → ℕ
open_count ts = length (keep open_row ts)

module _ (test : TodoRow → Bool) (set : TodoRow → TodoRow) (p : TodoRow → Bool)
    (keeps : (t : TodoRow) → p t ≡ true → p (set t) ≡ true) where
  -- What an update makes of each row that passes it keeps for all rows.
  update_where-keeps :
      (ts : List TodoRow)
      → ((t : TodoRow) → Mem t ts → p t ≡ true)
      → (t : TodoRow) → Mem t (update_where test set ts)
      → p t ≡ true
  unfolding update_where
  update_where-keeps [] every t m = absurd (not-mem-nil m)
  update_where-keeps (x ∷ ts) every t m = elim (Bool-cases (test x)) [
    | inl hit ↦
        Or.elim (p_prop t) (mem-cons.0 (rw hit at m)) (λ e. rw e (keeps x (every x mem-cons_self)))
          (λ n. update_where-keeps ts (λ y k. every y (mem-cons.1 (Or.inr k))) t n)
    | inr miss ↦
        Or.elim (p_prop t) (mem-cons.0 (rw miss at m)) (λ e. rw e (every x mem-cons_self))
          (λ n. update_where-keeps ts (λ y k. every y (mem-cons.1 (Or.inr k))) t n)
  ]
    where
      p_prop : (z : TodoRow) → IsProp (p z ≡ true)
      p_prop z = hlevel

-- The rows after a todo was started and completed.
abbrev worked : (now id : String) → List TodoRow → List TodoRow
worked now id ts =
    update_where (λ t. t.id == id) (λ t. record t { status = done; updated_at = now })
      (update_where (λ t. t.id == id && is_pending t.status)
        (λ t. record t { status = in_progress; updated_at = now }) ts)

module _ (now id : String) where
  worked-keeps :
      (p : TodoRow → Bool)
      → ((t : TodoRow)
          → p t ≡ true
          → p (record t { status = in_progress; updated_at = now }) ≡ true)
      → ((t : TodoRow) → p t ≡ true → p (record t { status = done; updated_at = now }) ≡ true)
      → (ts : List TodoRow) → ((t : TodoRow) → Mem t ts → p t ≡ true)
      → (t : TodoRow) → Mem t (worked now id ts)
      → p t ≡ true
  worked-keeps p starts ends ts every =
      update_where-keeps _ _ p ends _ (update_where-keeps _ _ p starts ts every)

  open_count-worked : (ts : List TodoRow) → open_count (worked now id ts) ≤ open_count ts
  unfolding open_count update_where keep
  open_count-worked [] = omega arith
  open_count-worked (t ∷ ts) = ground (arith, open_count-worked ts)

  worked_head :
      (t : TodoRow) (ts : List TodoRow)
      → t.id ≡ id
      → open_row t ≡ true
      → open_count (worked now id (t ∷ ts)) < open_count (t ∷ ts)
  unfolding open_count update_where keep
  worked_head t ts own waits = ground (arith, open_count-worked ts, eq_refl id)

  worked_tail :
      (t : TodoRow) (ts : List TodoRow)
      → open_count (worked now id ts) < open_count ts
      → open_count (worked now id (t ∷ ts)) < open_count (t ∷ ts)
  unfolding open_count update_where keep
  worked_tail t ts less = ground (arith, less)

  -- An open todo that is worked on is no longer open.
  worked_less :
      (row : TodoRow)
      → row.id ≡ id
      → open_row row ≡ true
      → (ts : List TodoRow) → Mem row ts
      → open_count (worked now id ts) < open_count ts
  worked_less row own waits [] m = absurd (not-mem-nil m)
  worked_less row own waits (t ∷ ts) m =
      Or.elim le_prop (mem-cons.0 m)
        (λ e. worked_head t ts (ap (λ x. x.id) (sym e) ∙ own) (ap open_row (sym e) ∙ waits))
        (λ n. worked_tail t ts (worked_less row own waits ts n))

  turn_on-IsRunnable :
      (rank : String → ℕ) (store : TodoStore)
      → IsRunnable rank store
      → IsRunnable rank (mark_done now id (mark_in_progress now id store))
  unfolding mark_done mark_in_progress
  turn_on-IsRunnable rank store runnable = record {
    descends = runnable.descends;
    typed =
        worked-keeps (λ t. t.type == "goal" || t.type == "task") (λ t h. h) (λ t h. h) store.todos
          runnable.typed;
    unhurt =
        worked-keeps (λ t. is_pending t.status || is_in_progress t.status || is_done t.status)
          (λ t h. refl) (λ t h. refl) store.todos runnable.unhurt;
  }

  turn_on_less :
      (row : TodoRow) (store : TodoStore)
      → row.id ≡ id
      → open_row row ≡ true
      → Mem row store.todos
      → open_count (mark_done now id (mark_in_progress now id store)).todos < open_count store.todos
  unfolding mark_done mark_in_progress
  turn_on_less row store own waits m = worked_less row own waits store.todos m

-- The todo that is next is open.
next_open :
    (store : TodoStore) (item : TodoItem)
    → IsNext store (some item)
    → Mem item.row store.todos × (open_row item.row ≡ true)
next_open store item (_, which) = elim which [
  | inl (m, h, _) ↦ (m, resumed_open item.row.status h)
  | inr (inl (_, (m, h, _))) ↦ (m, ready_open item.row.status _ _ h)
  | inr (inr (_, _, (m, h, _))) ↦ (m, ready_open item.row.status _ _ h)
]
  where
    resumed_open : (s : Status) → is_in_progress s ≡ true → not (is_done s) ≡ true
    resumed_open s h = ground (arith, h)

    ready_open :
        (s : Status) (a b : Bool) → (is_pending s && a && b) ≡ true → not (is_done s) ≡ true
    ready_open s a b h = ground (arith, h)

-- Of a plan that can be carried out, no todo is open when none is next.
none_open :
    (rank : String → ℕ) (store : TodoStore)
    → IsRunnable rank store
    → IsNext store none
    → open_count store.todos ≡ 0
unfolding open_count
none_open rank store runnable nothing =
    elim (Bool-cases (ltb 0 (length (keep open_row store.todos)))) [
      | inr empty ↦ ground (arith, empty)
      | inl some_open ↦
          let (t, m, waits) = some_kept open_row store.todos some_open in
          absurd
            (no_work rank store runnable nothing t m (working t.status (runnable.unhurt t m) waits))
    ]
  where
    working :
        (s : Status)
        → (is_pending s || is_in_progress s || is_done s) ≡ true
        → not (is_done s) ≡ true
        → (is_pending s || is_in_progress s) ≡ true
    working s h k = ground (arith, h, k)

open_count_total :
    (ts : List TodoRow) → open_count ts + length (keep (λ t. is_done t.status) ts) ≡ length ts
unfolding open_count keep
open_count_total [] = refl
open_count_total (t ∷ ts) = ground (arith, open_count_total ts)

complete_of : (store : TodoStore) → open_count store.todos ≡ 0 → is_complete store ≡ true
unfolding is_complete done_count
complete_of store h = ground (arith, h, open_count_total store.todos)

-- A turn leaves a plan that can be carried out, with one open todo less.
turn_on_fewer :
    (rank : String → ℕ) (now : String) (n : ℕ) (store : TodoStore)
    → IsRunnable rank store
    → open_count store.todos ≤ suc n
    → (next : Option TodoItem) → IsNext store next
    → IsRunnable rank (turn_on now next store) × (open_count (turn_on now next store).todos ≤ n)
turn_on_fewer rank now n store runnable few none nothing =
    (runnable, omega (arith, none_open rank store runnable nothing))
turn_on_fewer rank now n store runnable few (some item) is_next =
    let (m, waits) = next_open store item is_next in
    (
      turn_on-IsRunnable now item.row.id rank store runnable,
      omega (arith, few, turn_on_less now item.row.id item.row store refl waits m),
    )

turns-is_complete :
    (rank : String → ℕ) (clock : ℕ → String) (n : ℕ) (store : TodoStore)
    → IsRunnable rank store
    → open_count store.todos ≤ n
    → is_complete (turns clock n store) ≡ true
unfolding turns
turns-is_complete rank clock zero store runnable few = complete_of store (omega (arith, few))
turns-is_complete rank clock (suc n) store runnable few =
    let (left, fewer) =
      turn_on_fewer rank (clock n) n store runnable few (get_next_pending store)
        (get_next_pending-IsNext store) in
    turns-is_complete rank clock n (turn_on (clock n) (get_next_pending store) store) left fewer

-- When every todo is a goal or a task, the dependencies have an order, and no todo has failed or is
-- blocked, the plan can be carried out: to ask for the next todo, start it and complete it, as many
-- times as there are todos and at whatever times, makes the store complete.
pub carried_out-is_complete :
    (rank : String → ℕ) (clock : ℕ → String) (store : TodoStore)
    → IsRunnable rank store
    → is_complete (turns clock (total_count store) store) ≡ true
carried_out-is_complete rank clock store runnable =
    turns-is_complete rank clock (total_count store) store runnable
      (omega (arith, open_count_total store.todos))
