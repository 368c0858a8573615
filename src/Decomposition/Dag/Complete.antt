-- ===== src/Decomposition/Dag/Complete.antt =====
-- With an order of the nodes, and fuel above a node's rank, the search from it returns.
use vai_core.Prelude.{
  ℕ, zero, suc, ◌≤◌, ◌<◌, Bool, true, false, Option, none, some, List, [], ◌∷◌, String, ◌==◌,
  eq_iff, Result, ok, ◌>>=◌, ◌≡◌, refl, sym, ap, ◌∙◌, subst, elem, if◌then◌else◌, arith, Bool-cases,
  ◌⊎◌, inl, inr,
}
use vai_core.Prelude.Dict.{Dict, get, put}
use vai_core.Decomposition.Dag.{
  DagError, Color, unvisited, visiting, visited, for_each, deps_of, on_color, follow_dep, dfs,
}
use vai_core.Decomposition.Dag.Order.{Topo, rank, Topo-rank}
use vai_core.Decomposition.Dag.Sound.{is_visiting, is_known, put-test, put-test_twice}

module _ (order : List String) where
  -- The colours know every node, and the nodes in progress stand at rank `n` or above.
  abbrev pub Ready : (n : ℕ) → Dict Color → Type 0
  Ready n state =
      ((k : String) → elem k order ≡ true → is_known (get state k) ≡ true)
      × ((k : String) → is_visiting (get state k) ≡ true → n ≤ rank order k)

  -- The search returns, and leaves the nodes in progress as they were.
  pub record Returns (run : Result DagError (Dict Color)) (before : Dict Color) : Type 0 where
    pub after : Dict Color
    pub returned : run ≡ ok after
    pub same_visiting : (k : String) → is_visiting (get after k) ≡ is_visiting (get before k)
    pub same_known : (k : String) → is_known (get after k) ≡ is_known (get before k)

  abbrev pub Complete : (bound : ℕ) → (String → Dict Color → Result DagError (Dict Color)) → Type 0
  Complete bound step =
      (node : String) (before : Dict Color)
      → elem node order ≡ true
      → rank order node < bound
      → Ready (suc (rank order node)) before
      → Returns (step node before) before

  pub Ready-same :
      (n : ℕ) (before after : Dict Color)
      → ((k : String) → is_visiting (get after k) ≡ is_visiting (get before k))
      → ((k : String) → is_known (get after k) ≡ is_known (get before k))
      → Ready n before
      → Ready n after
  Ready-same n before after sv sk (known, above) =
      (λ k m. sk k ∙ known k m, λ k m. above k (sym (sv k) ∙ m))

  on_color-Returns :
      (bound n : ℕ) (step : String → Dict Color → Result DagError (Dict Color)) (node dep : String)
      (before : Dict Color) (c : Option Color)
      → Complete bound step
      → elem dep order ≡ true
      → rank order dep < bound
      → rank order dep < n
      → Ready n before
      → get before dep ≡ c
      → Returns (on_color step node dep c before) before
  on_color-Returns bound n step node dep before none complete there fits low (known, above) e =
      absurd (cc (known dep there, ap is_known e))
  on_color-Returns bound n step node dep before (some visiting) complete there fits low
        (known, above) e =
      let high = above dep (ap is_visiting e) in absurd (omega (arith, high, low))
  on_color-Returns bound n step node dep before (some unvisited) complete there fits low
        (known, above) e =
      complete dep before there fits (known, λ k m. lower k (above k m))
    where
      lower : (k : String) → n ≤ rank order k → suc (rank order dep) ≤ rank order k
      lower k high = omega (arith, high, low)
  on_color-Returns bound n step node dep before (some visited) complete there fits low ready e =
      record { after = before; returned = refl; same_visiting = λ k. refl; same_known = λ k. refl }

  for_each-Returns :
      (bound n : ℕ) (step : String → Dict Color → Result DagError (Dict Color)) (node : String)
      (ds : List String) (before : Dict Color)
      → Complete bound step
      → ((d : String)
          → elem d ds ≡ true
          → (elem d order ≡ true) × (rank order d < bound) × (rank order d < n))
      → Ready n before
      → Returns (for_each (follow_dep step node) ds before) before
  unfolding for_each follow_dep elem
  for_each-Returns bound n step node [] before complete fine ready = record {
    after = before;
    returned = refl;
    same_visiting = λ k. refl;
    same_known = λ k. refl;
  }
  for_each-Returns bound n step node (d ∷ ds) before complete fine ready =
      let (there, fits, low) = fine d (ground (arith, eq_iff d d)) in
      let one =
        on_color-Returns bound n step node d before (get before d) complete there fits low ready
          refl in
      let rest =
        for_each-Returns bound n step node ds one.after complete (λ k m. fine k (ground (arith, m)))
          (Ready-same n before one.after one.same_visiting one.same_known ready) in
      record {
        after = rest.after;
        returned = ap (λ r. r >>= for_each (follow_dep step node) ds) one.returned ∙ rest.returned;
        same_visiting = λ k. rest.same_visiting k ∙ one.same_visiting k;
        same_known = λ k. rest.same_known k ∙ one.same_known k;
      }

module _ (adjacency : Dict (List String)) (order : List String)
    (topo : Topo (deps_of adjacency) order) where
  mark-Ready :
      (node : String) (before : Dict Color)
      → Ready order (suc (rank order node)) before
      → Ready order (rank order node) (put before node visiting)
  mark-Ready node before (known, above) = (
    λ k m.
        put-test is_known before node visiting k
        ∙ or_true (node == k) (is_known (get before k)) (known k m),
    λ k m. elim (Bool-cases (node == k)) [
      | inl same ↦
          subst (λ j. rank order node ≤ rank order j) ((eq_iff node k).0 same) (omega arith)
      | inr other ↦ weaker k (
          above k (
            rest (node == k) (is_visiting (get before k)) other
              (sym (put-test is_visiting before node visiting k) ∙ m)))
    ],
  )
    where
      or_true : (a b : Bool) → b ≡ true → (if a then true else b) ≡ true
      or_true a b h = ground (arith, h)

      rest : (a b : Bool) → a ≡ false → (if a then true else b) ≡ true → b ≡ true
      rest a b h g = ground (arith, h, g)

      weaker : (k : String) → suc (rank order node) ≤ rank order k → rank order node ≤ rank order k
      weaker k h = omega (arith, h)

  bounded :
      (fuel : ℕ) (node d : String)
      → rank order node < suc fuel
      → rank order d < rank order node
      → rank order d < fuel
  bounded fuel node d fits low = omega (arith, fits, low)

  pub dfs-Complete : (fuel : ℕ) → Complete order fuel (dfs fuel adjacency)
  unfolding dfs
  dfs-Complete zero node before there fits ready = absurd (omega (arith, fits))
  dfs-Complete (suc fuel) node before there fits ready =
      let marked = put before node visiting in
      let loop =
        for_each-Returns order fuel (rank order node) (dfs fuel adjacency) node
          (deps_of adjacency node) marked (dfs-Complete fuel)
          (λ d m.
            let (behind, low) = Topo-rank (deps_of adjacency) order node d topo there m in
            (behind, bounded fuel node d fits low, low))
          (mark-Ready node before ready) in
      record {
        after = put loop.after node visited;
        returned = ap (λ r. r >>= λ s. ok (put s node visited)) loop.returned;
        same_visiting =
            put-test_twice is_visiting before loop.after node visiting visited
              (idle (Bool-cases (is_visiting (get before node)))) loop.same_visiting;
        same_known =
            put-test_twice is_known before loop.after node visiting visited
              (sym (ready.0 node there)) loop.same_known;
      }
    where
      idle :
          (is_visiting (get before node) ≡ true) ⊎ (is_visiting (get before node) ≡ false)
          → false ≡ is_visiting (get before node)
      idle (inl busy) = let high = ready.1 node busy in absurd (omega (arith, high))
      idle (inr free) = sym free
