-- ===== src/Decomposition/Dag/Sound.antt =====
-- What a search that returns has done: its nodes have an order with the dependencies behind.
use vai_core.Prelude.{
  ℕ, zero, suc, Bool, true, false, ◌||◌, Option, none, some, List, [], ◌∷◌, String, ◌==◌, eq_iff,
  Result, ok, >>=-eq-ok, ◌≡◌, refl, sym, ap, ◌∙◌, subst, elem, if◌then◌else◌, arith, Bool-cases,
  inl, inr,
}
use vai_core.Prelude.Dict.{Dict, get, put, get-put, get-put_self}
use vai_core.Prelude.Pigeonhole.{Within}
use vai_core.Decomposition.Dag.{
  DagError, Color, unvisited, visiting, visited, for_each, deps_of, on_color, follow_dep, dfs,
}
use vai_core.Decomposition.Dag.Order.{Topo}

abbrev pub is_visited : Option Color → Bool
is_visited (some visited) = true
is_visited _ = false

abbrev pub is_visiting : Option Color → Bool
is_visiting (some visiting) = true
is_visiting _ = false

abbrev pub is_unvisited : Option Color → Bool
is_unvisited (some unvisited) = true
is_unvisited _ = false

abbrev pub is_known : Option Color → Bool
is_known none = false
is_known (some c) = true

-- The visited nodes are those of the order.
abbrev pub Tracks : Dict Color → List String → Type 0
Tracks state order = (k : String) → is_visited (get state k) ≡ elem k order

-- A search took `before` to `after`.
pub record Grown (deps : String → List String) (before after : Dict Color) (order : List String)
    : Type 0 where
  pub later : List String
  pub tracks : Tracks after later
  pub topo : Topo deps later
  pub keeps : Within order later
  pub same_visiting : (k : String) → is_visiting (get after k) ≡ is_visiting (get before k)
  pub same_known : (k : String) → is_known (get after k) ≡ is_known (get before k)

module _ (deps : String → List String) where
  abbrev pub Sound : (String → Dict Color → Result DagError (Dict Color)) → Type 0
  Sound search_from =
      (node : String) (before after : Dict Color) (order : List String)
      → Tracks before order
      → Topo deps order
      → is_unvisited (get before node) ≡ true
      → search_from node before ≡ ok after
      → (g : Grown deps before after order) × (elem node g.later ≡ true)

  abbrev pub stays :
      (before : Dict Color) (order : List String)
      → Tracks before order
      → Topo deps order
      → Grown deps before before order
  stays before order tracks topo = record {
    later = order;
    tracks = tracks;
    topo = topo;
    keeps = λ k m. m;
    same_visiting = λ k. refl;
    same_known = λ k. refl;
  }

  pub on_color-Grown :
      (search_from : String → Dict Color → Result DagError (Dict Color)) (node dep : String)
      (before after : Dict Color) (order : List String) (c : Option Color)
      → Sound search_from
      → Tracks before order
      → Topo deps order
      → get before dep ≡ c
      → on_color search_from node dep c before ≡ ok after
      → (g : Grown deps before after order) × (elem dep g.later ≡ true)
  on_color-Grown search_from node dep before after order none sound tracks topo e run =
      absurd (cc run)
  on_color-Grown search_from node dep before after order (some visiting) sound tracks topo e run =
      absurd (cc run)
  on_color-Grown search_from node dep before after order (some unvisited) sound tracks topo e run =
      sound dep before after order tracks topo (ap is_unvisited e) run
  on_color-Grown search_from node dep before after order (some visited) sound tracks topo e run =
      let same : before ≡ after = cc run in
      subst (λ a. (g : Grown deps before a order) × (elem dep g.later ≡ true)) same
        (stays before order tracks topo, sym (tracks dep) ∙ ap is_visited e)

  abbrev pub chain :
      (a b c : Dict Color) (order : List String) (g : Grown deps a b order)
      → Grown deps b c g.later
      → Grown deps a c order
  chain a b c order g h = record {
    later = h.later;
    tracks = h.tracks;
    topo = h.topo;
    keeps = λ k m. h.keeps k (g.keeps k m);
    same_visiting = λ k. h.same_visiting k ∙ g.same_visiting k;
    same_known = λ k. h.same_known k ∙ g.same_known k;
  }

  for_each-Grown :
      (search_from : String → Dict Color → Result DagError (Dict Color)) (node : String)
      (ds : List String) (before after : Dict Color) (order : List String)
      → Sound search_from
      → Tracks before order
      → Topo deps order
      → for_each (follow_dep search_from node) ds before ≡ ok after
      → (g : Grown deps before after order) × Within ds g.later
  unfolding for_each follow_dep elem
  for_each-Grown search_from node [] before after order sound tracks topo run =
      let same : before ≡ after = cc run in
      subst (λ a. (g : Grown deps before a order) × Within [] g.later) same
        (stays before order tracks topo, λ k m. absurd (cc m))
  for_each-Grown search_from node (d ∷ ds) before after order sound tracks topo run =
      let (middle, first, then_) =
        >>=-eq-ok (follow_dep search_from node d before) (for_each (follow_dep search_from node) ds)
          run in
      let (g, here) =
        on_color-Grown search_from node d before middle order (get before d) sound tracks topo refl
          first in
      let (h, there) =
        for_each-Grown search_from node ds middle after g.later sound g.tracks g.topo then_ in
      (
        chain before middle after order g h,
        λ k m. elim (Bool-cases (d == k)) [
          | inl same ↦ subst (λ j. elem j h.later ≡ true) ((eq_iff d k).0 same) (h.keeps d here)
          | inr other ↦ there k (ground (arith, m, other))
        ],
      )

not_visited : (c : Option Color) → is_visiting c ≡ true → is_visited c ≡ false
not_visited none h = refl
not_visited (some unvisited) h = refl
not_visited (some visiting) h = refl
not_visited (some visited) h = absurd (cc h)

pub unvisited_facts :
    (c : Option Color)
    → is_unvisited c ≡ true
    → (is_visited c ≡ false) × (is_visiting c ≡ false) × (is_known c ≡ true)
unvisited_facts none h = absurd (cc h)
unvisited_facts (some unvisited) h = (refl, refl, refl)
unvisited_facts (some visiting) h = absurd (cc h)
unvisited_facts (some visited) h = absurd (cc h)

module _ (f : Option Color → Bool) (state : Dict Color) (node : String) where
  -- A test of the colours after a write.
  pub put-test :
      (c : Color) (k : String)
      → f (get (put state node c) k) ≡ (if node == k then f (some c) else f (get state k))
  put-test c k = elim (Bool-cases (node == k)) [
    | inl same ↦ rw (get-put state node k c, same) refl
    | inr other ↦ rw (get-put state node k c, other) refl
  ]

  -- A write that leaves the test at the node as it is.
  pub put-test_same :
      (c : Color)
      → f (some c) ≡ f (get state node)
      → (k : String) → f (get (put state node c) k) ≡ f (get state k)
  put-test_same c e k = elim (Bool-cases (node == k)) [
    | inl same ↦ put-test c k ∙ rw same (e ∙ ap (λ j. f (get state j)) ((eq_iff node k).0 same))
    | inr other ↦ put-test c k ∙ rw other refl
  ]

-- A node that is written twice ends with the test that it had before.
pub put-test_twice :
    (f : Option Color → Bool) (before middle : Dict Color) (node : String) (c c' : Color)
    → f (some c') ≡ f (get before node)
    → ((k : String) → f (get middle k) ≡ f (get (put before node c) k))
    → (k : String) → f (get (put middle node c') k) ≡ f (get before k)
put-test_twice f before middle node c c' e same k = elim (Bool-cases (node == k)) [
  | inl here ↦
      put-test f middle node c' k
      ∙ rw here (e ∙ ap (λ j. f (get before j)) ((eq_iff node k).0 here))
  | inr other ↦
      put-test f middle node c' k ∙ rw other (same k ∙ put-test f before node c k ∙ rw other refl)
]

either : (node k : String) (a b : Bool) → a ≡ b → (if node == k then true else a) ≡ (node == k || b)
either node k a b e = ground (arith, e)

module _ (adjacency : Dict (List String)) where
  pub dfs-Sound : (fuel : ℕ) → Sound (deps_of adjacency) (dfs fuel adjacency)
  unfolding dfs elem
  dfs-Sound zero node before after order tracks topo fresh run = absurd (cc run)
  dfs-Sound (suc fuel) node before after order tracks topo fresh run =
      let deps = deps_of adjacency node in
      let (white, idle, known) = unvisited_facts (get before node) fresh in
      let marked = put before node visiting in
      let (middle, loop, last) =
        >>=-eq-ok (for_each (follow_dep (dfs fuel adjacency) node) deps marked)
          (λ state. ok (put state node visited)) run in
      let (g, closed) =
        for_each-Grown (deps_of adjacency) (dfs fuel adjacency) node deps marked middle order
          (dfs-Sound fuel)
          (λ k. put-test_same is_visited before node visiting (sym white) k ∙ tracks k) topo loop in
      let busy = g.same_visiting node ∙ ap is_visiting (get-put_self before node visiting) in
      let new : elem node g.later ≡ false =
        sym (g.tracks node) ∙ not_visited (get middle node) busy in
      let same : put middle node visited ≡ after = cc last in
      subst (λ a. (h : Grown (deps_of adjacency) before a order) × (elem node h.later ≡ true)) same
        (
          record {
            later = node ∷ g.later;
            tracks = λ k.
                put-test is_visited middle node visited k
                ∙ either node k (is_visited (get middle k)) (elem k g.later) (g.tracks k);
            topo = (closed, new, g.topo);
            keeps = λ k m. ground (arith, g.keeps k m);
            same_visiting =
                put-test_twice is_visiting before middle node visiting visited (sym idle)
                  g.same_visiting;
            same_known =
                put-test_twice is_known before middle node visiting visited (sym known)
                  g.same_known;
          },
          ground (arith, eq_iff node node),
        )
