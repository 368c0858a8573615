-- ===== src/Planner/Todo/Select.antt =====
-- Which todo is next.
use vai_core.Prelude.{
  Bool, true, false, Option, none, some, ◌≡◌, refl, ◌⊎◌, inl, inr, Bool-cases, Option-cases, keep,
}
use mathlib.Core.List.{Mem}
use vai_core.Prelude.Texts.{text_lt-asymm, text_lt-not_trans}
use vai_core.Prelude.Sorting.{IsOrder, first, first-sorted, first-none}
use vai_core.Prelude.Members.{keep-mem, mem-keep, mem-keep_test}
use vai_core.Planner.Todo.{
  TodoRow, TodoStore, TodoItem, created_before, is_in_progress, is_ready, select_where, row_to_item,
  next_row, get_next_pending,
}

pub created_before-IsOrder : IsOrder created_before
created_before-IsOrder = record {
  asymm = λ x y. text_lt-asymm x.created_at y.created_at;
  not_trans = λ x y z. text_lt-not_trans x.created_at y.created_at z.created_at;
}

-- A row of the store that passes a test, none of those that pass being created before it.
abbrev pub IsOldest : TodoStore → (TodoRow → Bool) → TodoRow → Type 0
IsOldest store test row =
    Mem row store.todos
    × (test row ≡ true)
    × ((t : TodoRow) → Mem t store.todos → test t ≡ true → created_before t row ≡ false)

-- No row of the store passes a test.
abbrev pub IsNone : TodoStore → (TodoRow → Bool) → Type 0
IsNone store test = (t : TodoRow) → Mem t store.todos → test t ≡ false

module _ (store : TodoStore) (test : TodoRow → Bool) where
  pub first-IsOldest :
      (row : TodoRow) → first (select_where store test) ≡ some row → IsOldest store test row
  unfolding select_where
  first-IsOldest row e =
      let (m, least) =
        first-sorted created_before created_before-IsOrder (keep test store.todos) row e in
      (
        mem-keep test store.todos row m,
        mem-keep_test test store.todos row m,
        λ t there h. least t (keep-mem test store.todos t there h),
      )

  pub first-IsNone : first (select_where store test) ≡ none → IsNone store test
  unfolding select_where
  first-IsNone e t there = elim (Bool-cases (test t)) [
    | inl h ↦ absurd (
        first-none created_before created_before-IsOrder (keep test store.todos) t e
          (keep-mem test store.todos t there h))
    | inr h ↦ h
  ]

abbrev pub resumed : TodoRow → Bool
resumed t = is_in_progress t.status

-- What the choice of the next todo promises.
abbrev pub IsNext : TodoStore → Option TodoItem → Type 0
IsNext store none =
    IsNone store resumed
    × IsNone store (is_ready store "goal")
    × IsNone store (is_ready store "task")
IsNext store (some item) =
    (item ≡ row_to_item store item.row)
    × (IsOldest store resumed item.row
        ⊎ ((IsNone store resumed × IsOldest store (is_ready store "goal") item.row)
            ⊎ (IsNone store resumed
                × IsNone store (is_ready store "goal")
                × IsOldest store (is_ready store "task") item.row)))

-- The next todo is the oldest one in progress; without one, the oldest ready goal; without one,
-- the oldest ready task; and there is none only if no todo is in progress or ready.
pub get_next_pending-IsNext : (store : TodoStore) → IsNext store (get_next_pending store)
unfolding get_next_pending next_row row_to_item
get_next_pending-IsNext store = elim (Option-cases (first (select_where store resumed))) [
  | inr (row, e) ↦ rw e (refl, inl (first-IsOldest store resumed row e))
  | inl e ↦ elim (Option-cases (first (select_where store (is_ready store "goal")))) [
    | inr (row, f) ↦
        rw (e, f)
          (
            refl,
            inr (
                inl (
                  first-IsNone store resumed e,
                  first-IsOldest store (is_ready store "goal") row f,
                )),
          )
    | inl f ↦ elim (Option-cases (first (select_where store (is_ready store "task")))) [
      | inr (row, g) ↦
          rw (e, f, g)
            (
              refl,
              inr (
                  inr (
                    first-IsNone store resumed e,
                    first-IsNone store (is_ready store "goal") f,
                    first-IsOldest store (is_ready store "task") row g,
                  )),
            )
      | inl g ↦
          rw (e, f, g)
            (
              first-IsNone store resumed e,
              first-IsNone store (is_ready store "goal") f,
              first-IsNone store (is_ready store "task") g,
            )
    ]
  ]
]
