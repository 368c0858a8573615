-- ===== src/Planner/Todo/Retries.antt =====
-- Failures are counted against the retries of a todo.
use vai_core.Prelude.{
  ℕ, zero, suc, ◌-◌, true, false, Option, none, some, List, [], ◌∷◌, String, ◌==◌, ltb, ◌≡◌, refl,
  ap, ◌∙◌, inl, inr, arith, Bool-cases, keep, if◌then◌else◌,
}
use vai_core.Prelude.Sorting.{first}
use vai_core.Planner.Todo.{pending, failed, TodoRow, TodoStore}
use vai_core.Planner.Todo.Updates.{update_where, mark_failed}

-- The row with an id.
unfoldable pub lookup : TodoStore → String → Option TodoRow
unfolding keep
lookup store id = first (keep (λ t. t.id == id) store.todos)

lookup_update :
    (id : String) (set : TodoRow → TodoRow) (row : TodoRow) (ts : List TodoRow)
    → ((t : TodoRow) → (set t).id ≡ t.id)
    → first (keep (λ t. t.id == id) ts) ≡ some row
    → first (keep (λ t. t.id == id) (update_where (λ t. t.id == id) set ts)) ≡ some (set row)
unfolding keep update_where
lookup_update id set row [] same e = absurd (cc e)
lookup_update id set row (t ∷ ts) same e = elim (Bool-cases (t.id == id)) [
  | inl here ↦
      let still : (set t).id == id ≡ true = ap (λ j. j == id) (same t) ∙ here in
      rw (here, still) (ap (λ o. map_row o) (rw here at e))
  | inr other ↦ rw (other, other) (lookup_update id set row ts same (rw other at e))
]
  where
    map_row : Option TodoRow → Option TodoRow
    map_row none = none
    map_row (some r) = some (set r)

module _ (now todo_id error_message : String) where
  -- A row after a failure.
  abbrev pub failed_once : TodoRow → TodoRow
  failed_once row =
      if ltb 0 (row.retries_remaining - 1)
      then record row {
        status = pending;
        retries_remaining = row.retries_remaining - 1;
        error_message = error_message;
        updated_at = now;
      }
      else record row {
        status = failed;
        retries_remaining = 0;
        error_message = error_message;
        updated_at = now;
      }

  one_failure :
      (store : TodoStore) (row : TodoRow)
      → lookup store todo_id ≡ some row
      → (lookup (mark_failed now todo_id error_message store).0 todo_id ≡ some (failed_once row))
        × ((mark_failed now todo_id error_message store).1 ≡ ltb 0 (row.retries_remaining - 1))
  unfolding lookup mark_failed
  one_failure store row e = elim (Bool-cases (ltb 0 (row.retries_remaining - 1))) [
    | inl left ↦ rw (e, left) (lookup_update todo_id _ row store.todos (λ t. refl) e, refl)
    | inr none_left ↦
        rw (e, none_left) (lookup_update todo_id _ row store.todos (λ t. refl) e, refl)
  ]

  -- The store after `n` failures of the todo, and its row.
  unfoldable pub fails : ℕ → TodoStore → TodoStore
  unfolding mark_failed
  fails zero store = store
  fails (suc n) store = (mark_failed now todo_id error_message (fails n store)).0

  -- The row after `n` failures.
  abbrev pub failed_times : ℕ → TodoRow → TodoRow
  failed_times zero row = row
  failed_times (suc n) row = failed_once (failed_times n row)

  retries-failed_times :
      (n : ℕ) (row : TodoRow) → (failed_times n row).retries_remaining ≡ row.retries_remaining - n
  retries-failed_times zero row = omega arith
  retries-failed_times (suc n) row = less (failed_times n row) (retries-failed_times n row)
    where
      less :
          (r : TodoRow)
          → r.retries_remaining ≡ row.retries_remaining - n
          → (failed_once r).retries_remaining ≡ row.retries_remaining - suc n
      less r e = elim (Bool-cases (ltb 0 (r.retries_remaining - 1))) [
        | inl left ↦ rw left (omega (arith, e))
        | inr none_left ↦ rw none_left (ground (arith, e, none_left))
      ]

  lookup-fails :
      (n : ℕ) (store : TodoStore) (row : TodoRow)
      → lookup store todo_id ≡ some row
      → lookup (fails n store) todo_id ≡ some (failed_times n row)
  unfolding fails
  lookup-fails zero store row e = e
  lookup-fails (suc n) store row e =
      (one_failure (fails n store) (failed_times n row) (lookup-fails n store row e)).0

  -- Of the failures of a todo, exactly those before the last of its retries give it another attempt:
  -- failure `n + 1` of a todo with `r` retries returns `True`, and leaves it pending, if and only if
  -- `n + 1 < r`; otherwise it leaves it failed, with no retries.
  pub mark_failed_bound :
      (n : ℕ) (store : TodoStore) (row : TodoRow)
      → lookup store todo_id ≡ some row
      → ((mark_failed now todo_id error_message (fails n store)).1
          ≡ ltb (suc n) row.retries_remaining)
        × ((after : TodoRow) × (lookup
                (mark_failed now todo_id error_message (fails n store)).0
                todo_id
              ≡ some after)
            × (after.status ≡ (if ltb (suc n) row.retries_remaining then pending else failed))
            × (after.retries_remaining ≡ row.retries_remaining - suc n))
  mark_failed_bound n store row e =
      let (kept, again) =
        one_failure (fails n store) (failed_times n row) (lookup-fails n store row e) in
      let left = retries-failed_times n row in
      (
        again ∙ ground (arith, left),
        (
          failed_times (suc n) row,
          kept,
          status-failed_once (failed_times n row) left,
          retries-failed_times (suc n) row,
        ),
      )
    where
      status-failed_once :
          (r : TodoRow)
          → r.retries_remaining ≡ row.retries_remaining - n
          → (failed_once r).status ≡ (if ltb (suc n) row.retries_remaining then pending else failed)
      status-failed_once r e = elim (Bool-cases (ltb 0 (r.retries_remaining - 1))) [
        | inl left ↦
            let more : ltb (suc n) row.retries_remaining ≡ true = ground (arith, e, left) in
            rw (left, more) refl
        | inr none_left ↦
            let last : ltb (suc n) row.retries_remaining ≡ false = ground (arith, e, none_left) in
            rw (none_left, last) refl
      ]
