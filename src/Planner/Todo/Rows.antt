-- ===== src/Planner/Todo/Rows.antt =====
-- What the store keeps, and the insertions that keep it.
use vai_core.Prelude.{
  Bool, true, false, ◌&&◌, ◌||◌, List, [], ◌∷◌, ◌++◌, String, ◌==◌, eq_iff, ok, ◌≡◌, refl, ◌∙◌,
  subst, inl, inr, arith, Bool-cases, any, All,
}
use vai_core.Planner.Todo.{Status, failed, TodoRow, DepRow, TodoStore}
use vai_core.Planner.Todo.Updates.{
  has_id, has_dep, insert_todo, insert_or_ignore, insert_dep, insert_deps,
}

-- No id stands twice.
abbrev pub UniqueIds : List TodoRow → Type 0
UniqueIds [] = Unit
UniqueIds (t ∷ ts) = (has_id ts t.id ≡ false) × UniqueIds ts

abbrev pub UniqueDeps : List DepRow → Type 0
UniqueDeps [] = Unit
UniqueDeps (d ∷ ds) = (has_dep ds d.todo_id d.depends_on ≡ false) × UniqueDeps ds

abbrev pub is_failed : Status → Bool
is_failed failed = true
is_failed _ = false

abbrev pub Spent : TodoRow → Type 0
Spent t = is_failed t.status ≡ true → t.retries_remaining ≡ 0

abbrev pub IsKept : TodoStore → Type 0
IsKept store = UniqueIds store.todos × All Spent store.todos × UniqueDeps store.deps

has_id-snoc :
    (ts : List TodoRow) (t : TodoRow) (id : String)
    → has_id (ts ++ t ∷ []) id ≡ (has_id ts id || t.id == id)
unfolding has_id any
has_id-snoc [] t id = ground arith
has_id-snoc (u ∷ ts) t id = ground (arith, has_id-snoc ts t id)

snoc-UniqueIds :
    (ts : List TodoRow) (t : TodoRow)
    → UniqueIds ts
    → has_id ts t.id ≡ false
    → UniqueIds (ts ++ t ∷ [])
unfolding has_id any
snoc-UniqueIds [] t u new = (refl, tt)
snoc-UniqueIds (x ∷ ts) t (fresh, u) new = (
  has_id-snoc ts t x.id ∙ ground (arith, fresh, new, eq_iff x.id t.id, eq_iff t.id x.id),
  snoc-UniqueIds ts t u (ground (arith, new)),
)

snoc-Spent : (ts : List TodoRow) (t : TodoRow) → All Spent ts → Spent t → All Spent (ts ++ t ∷ [])
snoc-Spent [] t every s = (s, tt)
snoc-Spent (x ∷ ts) t (here, every) s = (here, snoc-Spent ts t every s)

has_dep-snoc :
    (ds : List DepRow) (d : DepRow) (a b : String)
    → has_dep (ds ++ d ∷ []) a b ≡ (has_dep ds a b || (d.todo_id == a && d.depends_on == b))
unfolding has_dep any
has_dep-snoc [] d a b = ground arith
has_dep-snoc (e ∷ ds) d a b = ground (arith, has_dep-snoc ds d a b)

snoc-UniqueDeps :
    (ds : List DepRow) (d : DepRow)
    → UniqueDeps ds
    → has_dep ds d.todo_id d.depends_on ≡ false
    → UniqueDeps (ds ++ d ∷ [])
unfolding has_dep any
snoc-UniqueDeps [] d u new = (refl, tt)
snoc-UniqueDeps (e ∷ ds) d (fresh, u) new = (
  has_dep-snoc ds d e.todo_id e.depends_on
      ∙ ground (
        arith,
        fresh,
        new,
        eq_iff e.todo_id d.todo_id,
        eq_iff d.todo_id e.todo_id,
        eq_iff e.depends_on d.depends_on,
        eq_iff d.depends_on e.depends_on,
      ),
  snoc-UniqueDeps ds d u (ground (arith, new)),
)

pub insert_dep-IsKept :
    (d : DepRow) (store : TodoStore) → IsKept store → IsKept (insert_dep d store)
unfolding insert_dep
insert_dep-IsKept d store (ids, spent, deps) =
    elim (Bool-cases (has_dep store.deps d.todo_id d.depends_on)) [
      | inl old ↦ rw old (ids, spent, deps)
      | inr new ↦ rw new (ids, spent, snoc-UniqueDeps store.deps d deps new)
    ]

pub insert_deps-IsKept :
    (id goal : String) (ds : List String) (store : TodoStore)
    → IsKept store
    → IsKept (insert_deps id goal ds store)
unfolding insert_deps
insert_deps-IsKept id goal [] store kept = kept
insert_deps-IsKept id goal (d ∷ ds) store kept =
    insert_deps-IsKept id goal ds _ (insert_dep-IsKept _ store kept)

pub insert_or_ignore-IsKept :
    (t : TodoRow) (store : TodoStore) → Spent t → IsKept store → IsKept (insert_or_ignore t store)
unfolding insert_or_ignore
insert_or_ignore-IsKept t store s (ids, spent, deps) = elim (Bool-cases (has_id store.todos t.id)) [
  | inl old ↦ rw old (ids, spent, deps)
  | inr new ↦ rw new (snoc-UniqueIds store.todos t ids new, snoc-Spent store.todos t spent s, deps)
]

pub insert_todo-IsKept :
    (t : TodoRow) (store after : TodoStore)
    → Spent t
    → IsKept store
    → insert_todo t store ≡ ok after
    → IsKept after
unfolding insert_todo
insert_todo-IsKept t store after s (ids, spent, deps) run =
    elim (Bool-cases (has_id store.todos t.id)) [
      | inl old ↦ absurd (cc (rw old at run))
      | inr new ↦
          let same : record store { todos = store.todos ++ t ∷ [] } ≡ after = cc (rw new at run) in
          subst IsKept same
            (snoc-UniqueIds store.todos t ids new, snoc-Spent store.todos t spent s, deps)
    ]
