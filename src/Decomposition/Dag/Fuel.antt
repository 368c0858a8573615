-- ===== src/Decomposition/Dag/Fuel.antt =====
-- The search for cycles never runs out of its fuel: the nodes in progress are distinct ids.
use vai_core.Prelude.{
  ℕ, zero, suc, ◌+◌, ◌<◌, true, Option, none, some, List, [], ◌∷◌, String, ◌==◌, eqb, ok, err,
  ◌>>=◌, ◌≡◌, ◌≢◌, refl, sym, ap, ◌∙◌, length, elem, arith, Bool-cases, inl, inr,
}
use vai_core.Prelude.Dict.{Dict, get, put}
use vai_core.Decomposition.Dag.{
  SubtaskSpec, ids_of, to_set, build_adjacency, no_fuel, Color, unvisited, visiting, visited,
  for_each, deps_of, follow_dep, dfs, root_color, from_root, check_dep, check_deps, check_cycles,
  validate_dag,
}
use vai_core.Decomposition.Dag.Order.{Topo}
use vai_core.Decomposition.Dag.Sound.{
  is_visited, is_unvisited, is_known, Tracks, put-test_same, dfs-Sound, unvisited_facts,
}
use vai_core.Decomposition.Dag.Roots.{
  Idle, start, start_color, start-Idle, start_known, root_color-Grown, length-ids_of,
}
use vai_core.Decomposition.Dag.InProgress.{
  chain_fuel, InProgress, length-InProgress, put-InProgress, Whole, for_each_fuel,
}

module _ (adjacency : Dict (List String)) (ids : List String) where
  dfs_fuel :
      (fuel : ℕ) (stack : List String)
      → length ids < fuel + length stack
      → Whole ids (deps_of adjacency) stack (dfs fuel adjacency)
  unfolding dfs
  dfs_fuel zero stack enough node before order tracks topo fresh path = λ cut.
      let short = length-InProgress ids stack before path in absurd (omega (arith, enough, short))
  dfs_fuel (suc fuel) stack enough node before order tracks topo fresh path =
      let (white, idle, known) = unvisited_facts (get before node) fresh in
      chain_fuel
        (for_each (follow_dep (dfs fuel adjacency) node) (deps_of adjacency node)
          (put before node visiting))
        (λ after. ok (put after node visited))
        (for_each_fuel ids (deps_of adjacency) (node ∷ stack) (dfs fuel adjacency) node
          (deps_of adjacency node) (put before node visiting) order
          (dfs_fuel fuel (node ∷ stack) (omega (arith, enough))) (dfs-Sound adjacency fuel)
          (λ k. put-test_same is_visited before node visiting (sym white) k ∙ tracks k) topo
          (put-InProgress ids stack node before fresh path))
        (λ after run cut. absurd (cc cut))

  root_color_fuel :
      (fuel : ℕ) (id : String) (before : Dict Color) (order : List String) (c : Option Color)
      → length ids < fuel
      → Tracks before order
      → Topo (deps_of adjacency) order
      → InProgress ids [] before
      → get before id ≡ c
      → root_color (dfs fuel adjacency id) id c before ≢ err no_fuel
  root_color_fuel fuel id before order none enough tracks topo path e = λ cut. absurd (cc cut)
  root_color_fuel fuel id before order (some visiting) enough tracks topo path e =
      λ cut. absurd (cc cut)
  root_color_fuel fuel id before order (some visited) enough tracks topo path e =
      λ cut. absurd (cc cut)
  root_color_fuel fuel id before order (some unvisited) enough tracks topo path e =
      dfs_fuel fuel [] (omega (arith, enough)) id before order tracks topo (ap is_unvisited e) path

  roots_fuel :
      (fuel : ℕ) (roots : List String) (before : Dict Color) (order : List String)
      → length ids < fuel
      → Tracks before order
      → Topo (deps_of adjacency) order
      → Idle before
      → ((k : String) → is_known (get before k) ≡ true → elem k ids ≡ true)
      → for_each (from_root fuel adjacency) roots before ≢ err no_fuel
  unfolding for_each from_root elem
  roots_fuel fuel [] before order enough tracks topo idle known = λ cut. absurd (cc cut)
  roots_fuel fuel (id ∷ roots) before order enough tracks topo idle known =
      chain_fuel (from_root fuel adjacency id before) (for_each (from_root fuel adjacency) roots)
        (root_color_fuel fuel id before order (get before id) enough tracks topo
          (tt, λ k m. absurd (cc m), known) refl)
        (λ middle first.
          let (g, here) =
            root_color-Grown adjacency fuel id before middle order (get before id) tracks topo idle
              refl first in
          roots_fuel fuel roots middle g.later enough g.tracks g.topo
            (λ k. g.same_visiting k ∙ idle k) (λ k m. known k (sym (g.same_known k) ∙ m)))

check_cycles_fuel : (ss : List SubtaskSpec) → check_cycles ss ≢ err no_fuel
unfolding check_cycles start elem
check_cycles_fuel ss =
    roots_fuel (build_adjacency ss) (ids_of ss) (suc (length ss)) (ids_of ss) (start ss) []
      (omega (arith, length-ids_of ss)) (λ k. start_color ss is_visited k ∙ ground arith) tt
      (start-Idle ss) (λ k m. sym (start_known ss k) ∙ m)

checks_fuel :
    (ids : List String) (id : String) (ds : List String) (u : Unit {0})
    → for_each (check_dep ids id) ds u ≢ err no_fuel
unfolding for_each check_dep
checks_fuel ids id [] u = λ cut. absurd (cc cut)
checks_fuel ids id (d ∷ ds) u =
    chain_fuel (check_dep ids id d u) (for_each (check_dep ids id) ds) one
      (λ v first. checks_fuel ids id ds v)
  where
    one : check_dep ids id d u ≢ err no_fuel
    one cut = elim (Bool-cases (elem d ids)) [
      | inr gone ↦ absurd (cc (rw gone at cut))
      | inl there ↦ elim (Bool-cases (d == id)) [
        | inl same ↦ absurd (cc (rw (there, same) at cut))
        | inr other ↦ absurd (cc (rw (there, other) at cut))
      ]
    ]

all_checks_fuel :
    (ids : List String) (ts : List SubtaskSpec) (u : Unit {0})
    → for_each (check_deps ids) ts u ≢ err no_fuel
unfolding for_each
all_checks_fuel ids [] u = λ cut. absurd (cc cut)
all_checks_fuel ids (t ∷ ts) u =
    chain_fuel (check_deps ids t u) (for_each (check_deps ids) ts)
      (checks_fuel ids t.id t.depends_on u) (λ v first. all_checks_fuel ids ts v)

-- The validator never runs out of the fuel that it starts with, on any plan, valid or not.
pub validate_dag_fuel : (ss : List SubtaskSpec) → validate_dag ss ≢ err no_fuel
unfolding validate_dag
validate_dag_fuel ss = λ cut. elim (Bool-cases (eqb (length (to_set (ids_of ss))) (length ss))) [
  | inr fewer ↦ absurd (cc (rw fewer at cut))
  | inl same ↦ whole (rw same at cut)
]
  where
    whole :
        (for_each (check_deps (ids_of ss)) ss tt >>= λ u. check_cycles ss >>= λ state. ok tt)
        ≢ err no_fuel
    whole =
        chain_fuel (for_each (check_deps (ids_of ss)) ss tt)
          (λ u. check_cycles ss >>= λ state. ok tt) (all_checks_fuel (ids_of ss) ss tt)
          (λ u first.
            chain_fuel (check_cycles ss) (λ state. ok tt) (check_cycles_fuel ss)
              (λ state run cut. absurd (cc cut)))
