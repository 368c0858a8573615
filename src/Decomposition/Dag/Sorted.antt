-- ===== src/Decomposition/Dag/Sorted.antt =====
-- The sort returns on every plan that the validator accepts, with its subtasks in order.
use vai_core.Prelude.{
  ℕ, zero, suc, ◌<◌, true, false, some, List, [], ◌∷◌, String, eq_iff, Result, ok, err, ◌>>=◌, ◌≡◌,
  ◌↔◌, refl, sym, ap, ◌∙◌, subst, length, elem, All, Distinct, arith, Bool-cases, ◌⊎◌, inl, inr,
}
use vai_core.Prelude.Dict.{get}
use vai_core.Decomposition.Dag.{
  SubtaskSpec, DagError, no_fuel, ids_of, fill, for_each, Sorting, visit_node, visit,
  topological_sort, validate_dag,
}
use vai_core.Decomposition.Dag.Order.{Topo-rank, rank}
use vai_core.Decomposition.Dag.Plan.{dependencies, IsOrder}
use vai_core.Decomposition.Dag.Ordered.{Ordered, found_in}
use vai_core.Decomposition.Dag.Sort.{
  id_map, Kept, Visits, Works, for_each-Visits, entering-Kept, leaving-Visits,
}
use vai_core.Decomposition.Dag.Roots.{IsOrder-rank}
use vai_core.Decomposition.Dag.Valid.{validate_dag-IsOrder}

module _ (ss : List SubtaskSpec) (order : List String) (distinct : Distinct (ids_of ss))
    (o : IsOrder ss order) where
  visit_node-Visits :
      (fuel : ℕ) (node : String) (n : ℕ) (s : Sorting)
      → Works ss order fuel (visit fuel (id_map ss))
      → elem node order ≡ true
      → rank order node < suc fuel
      → rank order node < n
      → Kept ss order n s
      → elem node s.seen ≡ false
      → Visits ss order
          (visit_node (visit fuel (id_map ss)) node (get (id_map ss) node) s)
          n
          s
          (node ∷ [])
  visit_node-Visits fuel node n s works there fits low kept fresh =
      let (x, found, own, deps) = found_in ss [] node distinct (sym (o.same node) ∙ there) in
      let loop =
        for_each-Visits ss order fuel (rank order node) (visit fuel (id_map ss)) x.depends_on
          (record s { seen = node ∷ s.seen }) works
          (λ d m.
            let (behind, less) =
              Topo-rank (dependencies ss) order node d o.topo there (ap (elem d) deps ∙ m) in
            (behind, bounded d less, less))
          (entering-Kept ss order node n s fresh low kept) in
      subst (λ c. Visits ss order (visit_node (visit fuel (id_map ss)) node c s) n s (node ∷ []))
        (sym found) (leaving-Visits ss order node n s x fresh there kept own found loop)
    where
      bounded : (d : String) → rank order d < rank order node → rank order d < fuel
      bounded d less = omega (arith, fits, less)

  pub visit-Works : (fuel : ℕ) → Works ss order fuel (visit fuel (id_map ss))
  unfolding visit elem
  visit-Works zero node n s there fits low kept = absurd (omega (arith, fits))
  visit-Works (suc fuel) node n s there fits low kept = elim (Bool-cases (elem node s.seen)) [
    | inl old ↦ rw old record {
      after = s;
      returned = refl;
      kept = kept;
      same_entered = λ k. refl;
      keeps = λ k m. m;
      done = λ k m.
          subst (λ j. elem j (ids_of s.result) ≡ true) ((eq_iff node k).0 (ground (arith, m)))
            (finished old (Bool-cases (elem node (ids_of s.result))));
    }
    | inr fresh ↦
        rw fresh (visit_node-Visits fuel node n s (visit-Works fuel) there fits low kept fresh)
  ]
    where
      finished :
          elem node s.seen ≡ true
          → (elem node (ids_of s.result) ≡ true) ⊎ (elem node (ids_of s.result) ≡ false)
          → elem node (ids_of s.result) ≡ true
      finished old (inl here) = here
      finished old (inr gone) =
          let high = kept.above node (rw (old, gone) refl) in absurd (omega (arith, high, low))

-- What a sort of a plan is: its own subtasks, all of them, each after its dependencies and once.
pub record IsSort (ss out : List SubtaskSpec) : Type 0 where
  pub ordered : Ordered [] out
  pub own : All (λ x. get (id_map ss) x.id ≡ some x) out
  pub same : (k : String) → elem k (ids_of out) ≡ elem k (ids_of ss)

-- On a plan that the validator accepts, the sort returns, within its fuel, a list of the plan's
-- own subtasks with all its ids, in which every subtask comes once and after its dependencies.
pub topological_sort-IsSort :
    (ss : List SubtaskSpec)
    → validate_dag ss ≡ ok tt
    → (out : List SubtaskSpec) × (topological_sort ss ≡ ok out) × IsSort ss out
unfolding topological_sort
topological_sort-IsSort ss valid =
    let (distinct, order, o) = (validate_dag-IsOrder ss).0 valid in
    let v =
      for_each-Visits ss order (suc (length ss)) (suc (length ss))
        (visit (suc (length ss)) (id_map ss)) (ids_of ss) (record { seen = []; result = [] })
        (visit-Works ss order distinct o (suc (length ss)))
        (λ d m.
          let there = o.same d ∙ m in
          let low = IsOrder-rank ss order o d there in (there, low, low))
        (record {
          ordered = tt;
          own = tt;
          seen_too = λ k m. m;
          above = λ k m. absurd (cc m);
          inside = λ k m. absurd (cc m);
        }) in
    (
      v.after.result,
      ap (λ r. validate_dag ss >>= λ u. r >>= λ s. ok s.result) v.returned
          ∙ ap (λ r. r >>= λ u. ok v.after.result) valid,
      record {
        ordered = v.kept.ordered;
        own = v.kept.own;
        same = λ k. elim (Bool-cases (elem k (ids_of ss))) [
          | inl here ↦ v.done k here ∙ sym here
          | inr gone ↦ elim (Bool-cases (elem k (ids_of v.after.result))) [
            | inl late ↦ absurd (cc (v.kept.inside k late, o.same k, gone))
            | inr right ↦ right ∙ sym gone
          ]
        ];
      },
    )

-- The sort raises exactly the errors that the validator raises.
pub topological_sort_errors :
    (ss : List SubtaskSpec) (e : DagError)
    → (topological_sort ss ≡ err e) ↔ (validate_dag ss ≡ err e)
unfolding topological_sort
topological_sort_errors ss e = (raised (validate_dag ss) refl, λ bad. ap (λ r. r >>= sort) bad)
  where
    sort : Unit {0} → Result DagError (List SubtaskSpec)
    sort u =
        for_each (visit (suc (length ss)) (fill (λ s. s) ss [])) (ids_of ss)
          (record { seen = []; result = [] })
        >>= λ s. ok s.result

    error_of : Result DagError (List SubtaskSpec) → DagError
    error_of (ok out) = no_fuel
    error_of (err d) = d

    raised :
        (r : Result DagError (Unit {0}))
        → validate_dag ss ≡ r
        → topological_sort ss ≡ err e
        → validate_dag ss ≡ err e
    raised (ok u) valid run =
        let (out, sorted, is_sort) = topological_sort-IsSort ss valid in absurd (cc (sorted, run))
    raised (err d) bad run =
        let same : d ≡ e = ap error_of (sym (ap (λ r. r >>= sort) bad) ∙ run) in bad ∙ ap err same
