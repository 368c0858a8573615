-- ===== src/Decomposition/Dag/Sort.antt =====
-- The topological sort of a valid plan.
use vai_core.Prelude.{
  ℕ, ◌≤◌, ◌<◌, Bool, true, false, ◌||◌, ◌&&◌, not, some, List, [], ◌∷◌, ◌++◌, String, ◌==◌, eq_iff,
  Result, ok, ◌>>=◌, ◌≡◌, refl, sym, ap, ◌∙◌, subst, elem, All, arith, Bool-cases, inl, inr,
}
use vai_core.Prelude.Dict.{Dict, get}
use vai_core.Prelude.Pigeonhole.{Within}
use vai_core.Decomposition.Dag.{SubtaskSpec, ids_of, fill, DagError, for_each, Sorting}
use vai_core.Decomposition.Dag.Order.{rank}
use vai_core.Decomposition.Dag.Ordered.{Ordered, snoc-Ordered, elem-snoc, snoc-All}

-- A node that `_visit` has entered and not yet left.
abbrev pub entered : Sorting → String → Bool
entered s k = elem k s.seen && not (elem k (ids_of s.result))

abbrev pub id_map : List SubtaskSpec → Dict SubtaskSpec
id_map ss = fill (λ s. s) ss []

module _ (ss : List SubtaskSpec) (order : List String) where
  -- What the sort keeps: the result is in order, of the plan's own subtasks, and seen; the nodes
  -- entered stand at rank `n` or above.
  pub record Kept (n : ℕ) (s : Sorting) : Type 0 where
    pub ordered : Ordered [] s.result
    pub own : All (λ x. get (id_map ss) x.id ≡ some x) s.result
    pub seen_too : (k : String) → elem k (ids_of s.result) ≡ true → elem k s.seen ≡ true
    pub above : (k : String) → entered s k ≡ true → n ≤ rank order k
    pub inside : (k : String) → elem k (ids_of s.result) ≡ true → elem k order ≡ true

  -- The visits return, with every id of `ids` in the result, and the nodes entered as before.
  pub record Visits (run : Result DagError Sorting) (n : ℕ) (before : Sorting) (ids : List String)
      : Type 0 where
    pub after : Sorting
    pub returned : run ≡ ok after
    pub kept : Kept n after
    pub same_entered : (k : String) → entered after k ≡ entered before k
    pub keeps : Within (ids_of before.result) (ids_of after.result)
    pub done : Within ids (ids_of after.result)

  abbrev pub Works : (bound : ℕ) → (String → Sorting → Result DagError Sorting) → Type 0
  Works bound step =
      (node : String) (n : ℕ) (s : Sorting)
      → elem node order ≡ true
      → rank order node < bound
      → rank order node < n
      → Kept n s
      → Visits (step node s) n s (node ∷ [])

  pub for_each-Visits :
      (bound n : ℕ) (step : String → Sorting → Result DagError Sorting) (ds : List String)
      (s : Sorting)
      → Works bound step
      → ((d : String)
          → elem d ds ≡ true
          → (elem d order ≡ true) × (rank order d < bound) × (rank order d < n))
      → Kept n s
      → Visits (for_each step ds s) n s ds
  unfolding for_each elem
  for_each-Visits bound n step [] s works fine kept = record {
    after = s;
    returned = refl;
    kept = kept;
    same_entered = λ k. refl;
    keeps = λ k m. m;
    done = λ k m. absurd (cc m);
  }
  for_each-Visits bound n step (d ∷ ds) s works fine kept =
      let (there, fits, low) = fine d (ground (arith, eq_iff d d)) in
      let one = works d n s there fits low kept in
      let rest =
        for_each-Visits bound n step ds one.after works (λ k m. fine k (ground (arith, m)))
          one.kept in
      record {
        after = rest.after;
        returned = ap (λ r. r >>= for_each step ds) one.returned ∙ rest.returned;
        kept = rest.kept;
        same_entered = λ k. rest.same_entered k ∙ one.same_entered k;
        keeps = λ k m. rest.keeps k (one.keeps k m);
        done = λ k m. elim (Bool-cases (d == k)) [
          | inl same ↦ rest.keeps k (one.done k (ground (arith, same)))
          | inr other ↦ rest.done k (ground (arith, m, other))
        ];
      }

  -- A node as it is entered, and as it is left.
  abbrev entering : String → Sorting → Sorting
  entering node s = record s { seen = node ∷ s.seen }

  abbrev leaving : SubtaskSpec → Sorting → Sorting
  leaving x s = record s { result = s.result ++ x ∷ [] }

  pub entering-Kept :
      (node : String) (n : ℕ) (s : Sorting)
      → elem node s.seen ≡ false
      → rank order node < n
      → Kept n s
      → Kept (rank order node) (entering node s)
  unfolding elem
  entering-Kept node n s fresh low kept = record {
    ordered = kept.ordered;
    own = kept.own;
    seen_too = λ k m. ground (arith, kept.seen_too k m);
    above = λ k m. elim (Bool-cases (node == k)) [
      | inl same ↦
          subst (λ j. rank order node ≤ rank order j) ((eq_iff node k).0 same) (omega arith)
      | inr other ↦ lower k (kept.above k (ground (arith, m, other)))
    ];
    inside = kept.inside;
  }
    where
      lower : (k : String) → n ≤ rank order k → rank order node ≤ rank order k
      lower k high = omega (arith, high, low)

  left_out :
      (s : Sorting)
      → ({n : ℕ}
          → Kept n s
          → (k : String) → elem k s.seen ≡ false
          → elem k (ids_of s.result) ≡ false)
  left_out s kept k fresh = elim (Bool-cases (elem k (ids_of s.result))) [
    | inl here ↦ absurd (cc (kept.seen_too k here, fresh))
    | inr gone ↦ gone
  ]

  pub leaving-Visits :
      (node : String) (n : ℕ) (s : Sorting) (x : SubtaskSpec)
      → elem node s.seen ≡ false
      → elem node order ≡ true
      → Kept n s
      → x.id ≡ node
      → get (id_map ss) node ≡ some x
      → {run : Result DagError Sorting}
      → Visits run (rank order node) (entering node s) x.depends_on
      → Visits (run >>= λ after. ok (leaving x after)) n s (node ∷ [])
  unfolding elem
  leaving-Visits node n s x fresh there kept own found v =
      let a = v.after in
      let open_ : (k : String)
          → entered a k ≡ ((node == k || elem k s.seen) && not (elem k (ids_of s.result))) =
        v.same_entered in
      let unseen = left_out s kept node fresh in
      let busy : entered a node ≡ true = open_ node ∙ ground (arith, eq_iff node node, unseen) in
      let level = same_level a open_ in
      record {
        after = leaving x a;
        returned = ap (λ r. r >>= λ after. ok (leaving x after)) v.returned;
        kept = record {
          ordered =
              snoc-Ordered [] a.result x v.kept.ordered (λ d m. v.done d m)
                (subst (λ j. elem j (ids_of a.result) ≡ false) (sym own) (ground (arith, busy)));
          own =
              snoc-All (λ y. get (id_map ss) y.id ≡ some y) a.result x v.kept.own
                (ap (get (id_map ss)) own ∙ found);
          seen_too = λ k m. elim (Bool-cases (node == k)) [
            | inl same ↦
                subst (λ j. elem j a.seen ≡ true) ((eq_iff node k).0 same)
                  (seen_of (elem node a.seen) (elem node (ids_of a.result)) busy)
            | inr other ↦ v.kept.seen_too k (before a k other m)
          ];
          above = λ k m. kept.above k (sym (level k) ∙ m);
          inside = λ k m. elim (Bool-cases (node == k)) [
            | inl same ↦ subst (λ j. elem j order ≡ true) ((eq_iff node k).0 same) there
            | inr other ↦ v.kept.inside k (before a k other m)
          ];
        };
        same_entered = level;
        keeps = λ k m. elem-snoc k a.result x ∙ ground (arith, v.keeps k m);
        done = λ k m. elem-snoc k a.result x ∙ rw own (ground (arith, m));
      }
    where
      seen_of : (b c : Bool) → (b && not c) ≡ true → b ≡ true
      seen_of b c h = ground (arith, h)

      -- The result without its last subtask.
      before :
          (a : Sorting) (k : String)
          → node == k ≡ false
          → elem k (ids_of (a.result ++ x ∷ [])) ≡ true
          → elem k (ids_of a.result) ≡ true
      before a k other m = ground (arith, other, m, elem-snoc k a.result x, ap (λ j. j == k) own)

      same_level :
          (a : Sorting)
          → ((k : String)
              → entered a k ≡ ((node == k || elem k s.seen) && not (elem k (ids_of s.result))))
          → (k : String) → entered (leaving x a) k ≡ entered s k
      same_level a open_ k = elim (Bool-cases (node == k)) [
        | inl same ↦
            let late = subst (λ j. elem j s.seen ≡ false) ((eq_iff node k).0 same) fresh in
            ground (arith, same, late, open_ k, elem-snoc k a.result x, ap (λ j. j == k) own)
        | inr other ↦ ground (arith, other, open_ k, elem-snoc k a.result x, ap (λ j. j == k) own)
      ]
