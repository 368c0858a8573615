-- ===== src/Decomposition/Dag/Valid.antt =====
-- The validator accepts a plan exactly when its ids are distinct and its dependencies have an order.
use vai_core.Prelude.{
  ◌<◌, true, false, some, List, [], ◌∷◌, String, ◌==◌, eq_iff, eqb, ok, ◌>>=◌, >>=-eq-ok, ◌≡◌, refl,
  sym, ap, ◌∙◌, length, elem, All, Distinct, arith, Bool-cases, ◌↔◌, inl, inr,
}
use vai_core.Prelude.Dict.{Dict, get}
use vai_core.Prelude.Pigeonhole.{Within}
use vai_core.Decomposition.Dag.{
  SubtaskSpec, ids_of, to_set, build_adjacency, Color, for_each, deps_of, or_empty, check_dep,
  check_deps, check_cycles, validate_dag,
}
use vai_core.Decomposition.Dag.Order.{Topo-rank, rank}
use vai_core.Decomposition.Dag.Plan.{fill_each, dependencies, deps_of_lem, IsOrder, to_set-Distinct}
use vai_core.Decomposition.Dag.Roots.{length-ids_of, check_cycles-IsOrder, check_cycles-returns}

-- A dependency that the checks before the search let pass.
abbrev Good : List String → (id dep : String) → Type 0
Good ids id dep = (elem dep ids ≡ true) × (dep == id ≡ false)

deps_pass :
    (ids : List String) (id : String) (ds : List String)
    → ((d : String) → elem d ds ≡ true → Good ids id d)
    → for_each (check_dep ids id) ds tt ≡ ok tt
unfolding for_each check_dep elem
deps_pass ids id [] good = refl
deps_pass ids id (d ∷ ds) good =
    let (there, other) = good d (ground (arith, eq_iff d d)) in
    ap (λ r. r >>= for_each (check_dep ids id) ds) (passes there other)
    ∙ deps_pass ids id ds (λ k m. good k (ground (arith, m)))
  where
    passes : elem d ids ≡ true → d == id ≡ false → check_dep ids id d tt ≡ ok tt
    passes there other = rw (there, other) refl

subtasks_pass :
    (ids : List String) (ts : List SubtaskSpec)
    → All (λ t. (d : String) → elem d t.depends_on ≡ true → Good ids t.id d) ts
    → for_each (check_deps ids) ts tt ≡ ok tt
unfolding for_each
subtasks_pass ids [] good = refl
subtasks_pass ids (t ∷ ts) (here, rest) =
    ap (λ r. r >>= for_each (check_deps ids) ts) (deps_pass ids t.id t.depends_on here)
    ∙ subtasks_pass ids ts rest

self_rank : (order : List String) (d x : String) → rank order d < rank order x → d == x ≡ false
self_rank order d x low = elim (Bool-cases (d == x)) [
  | inl same ↦
      let level = ap (rank order) ((eq_iff d x).0 same) in absurd (omega (arith, low, level))
  | inr other ↦ other
]

module _ (ss : List SubtaskSpec) (order : List String) (distinct : Distinct (ids_of ss))
    (o : IsOrder ss order) where
  -- The subtasks `ts` of the plan, each found under its id.
  Good-deps :
      (ts : List SubtaskSpec)
      → All (λ t. get (build_adjacency ss) t.id ≡ some t.depends_on) ts
      → Within (ids_of ts) (ids_of ss)
      → All (λ t. (d : String) → elem d t.depends_on ≡ true → Good (ids_of ss) t.id d) ts
  unfolding elem deps_of
  Good-deps [] found within = tt
  Good-deps (t ∷ ts) (here, found) within = (
    λ d m.
        let listed = sym (deps_of_lem ss t.id distinct) ∙ ap or_empty here in
        let (behind, low) =
          Topo-rank (dependencies ss) order t.id d o.topo
            (o.same t.id ∙ within t.id (ground (arith, eq_iff t.id t.id)))
            (ap (elem d) listed ∙ m) in
        (sym (o.same d) ∙ behind, self_rank order d t.id low),
    Good-deps ts found (λ k m. within k (ground (arith, m))),
  )

  pub checks_pass : for_each (check_deps (ids_of ss)) ss tt ≡ ok tt
  unfolding build_adjacency
  checks_pass =
      subtasks_pass (ids_of ss) ss
        (Good-deps ss (fill_each (λ t. t.depends_on) ss [] distinct) (λ k m. m))

-- The parts of a check that passes.
validate_dag-passed :
    (ss : List SubtaskSpec)
    → validate_dag ss ≡ ok tt
    → (length (to_set (ids_of ss)) ≡ length ss)
      × (after : Dict Color) × (check_cycles ss ≡ ok after)
unfolding validate_dag
validate_dag-passed ss run = elim (Bool-cases (eqb (length (to_set (ids_of ss))) (length ss))) [
  | inr fewer ↦ absurd (cc (rw fewer at run))
  | inl same ↦
      let (u, checks, rest) =
        >>=-eq-ok (for_each (check_deps (ids_of ss)) ss tt)
          (λ v. check_cycles ss >>= λ state. ok tt) (rw same at run) in
      let (after, cycles, done) = >>=-eq-ok (check_cycles ss) (λ state. ok tt) rest in
      (ground (arith, same), after, cycles)
]

-- The validator accepts a plan if and only if no id stands twice and the ids have an order in
-- which each id comes after all its dependencies, the dependencies being ids of the plan.
pub validate_dag-IsOrder :
    (ss : List SubtaskSpec)
    → (validate_dag ss ≡ ok tt) ↔ (Distinct (ids_of ss) × (order : List String) × IsOrder ss order)
unfolding validate_dag
validate_dag-IsOrder ss = (accepted, returns)
  where
    accepted :
        validate_dag ss ≡ ok tt → Distinct (ids_of ss) × (order : List String) × IsOrder ss order
    accepted run =
        let (full, after, cycles) = validate_dag-passed ss run in
        let distinct = (to_set-Distinct (ids_of ss)).0 (full ∙ sym (length-ids_of ss)) in
        let (order, o) = check_cycles-IsOrder ss after distinct cycles in (distinct, order, o)

    returns :
        Distinct (ids_of ss) × (order : List String) × IsOrder ss order → validate_dag ss ≡ ok tt
    returns (distinct, order, o) =
        let full : length (to_set (ids_of ss)) ≡ length ss =
          (to_set-Distinct (ids_of ss)).1 distinct ∙ length-ids_of ss in
        let (after, cycles) = check_cycles-returns ss order distinct o in
        let same : eqb (length (to_set (ids_of ss))) (length ss) ≡ true = ground (arith, full) in
        rw same (
          ap (λ r. r >>= λ v. check_cycles ss >>= λ state. ok tt) (checks_pass ss order distinct o)
          ∙ ap (λ r. r >>= λ state. ok tt) cycles)
