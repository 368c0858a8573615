-- ===== src/Decomposition/Dag/Roots.antt =====
-- The search from each node of a plan in turn, with the colours that it starts from.
use vai_core.Prelude.{
  ℕ, suc, ◌<◌, Bool, true, false, Option, none, some, List, [], ◌∷◌, String, ◌==◌, eq_iff, ok,
  ◌>>=◌, >>=-eq-ok, ◌≡◌, refl, sym, ap, ◌∙◌, subst, length, elem, Distinct, if◌then◌else◌, arith,
  Bool-cases, inl, inr,
}
use vai_core.Prelude.Dict.{Dict, get}
use vai_core.Prelude.Pigeonhole.{Within, length-Within}
use vai_core.Decomposition.Dag.{
  SubtaskSpec, ids_of, fill, build_adjacency, Color, unvisited, visiting, visited, for_each,
  deps_of, dfs, root_color, from_root, check_cycles,
}
use vai_core.Decomposition.Dag.Order.{Topo, Topo-Distinct, rank, rank-lt}
use vai_core.Decomposition.Dag.Sound.{
  is_visited, is_visiting, is_unvisited, is_known, Tracks, Grown, stays, chain, dfs-Sound,
}
use vai_core.Decomposition.Dag.Plan.{fill_const, dependencies, deps_of_lem, IsOrder}
use vai_core.Decomposition.Dag.Complete.{Ready, Ready-same, Returns, dfs-Complete}

-- No node is in progress.
abbrev pub Idle : Dict Color → Type 0
Idle state = (k : String) → is_visiting (get state k) ≡ false

module _ (adjacency : Dict (List String)) (fuel : ℕ) where
  pub root_color-Grown :
      (id : String) (before after : Dict Color) (order : List String) (c : Option Color)
      → Tracks before order
      → Topo (deps_of adjacency) order
      → Idle before
      → get before id ≡ c
      → root_color (dfs fuel adjacency id) id c before ≡ ok after
      → (g : Grown (deps_of adjacency) before after order) × (elem id g.later ≡ true)
  root_color-Grown id before after order none tracks topo idle e run = absurd (cc run)
  root_color-Grown id before after order (some unvisited) tracks topo idle e run =
      dfs-Sound adjacency fuel id before after order tracks topo (ap is_unvisited e) run
  root_color-Grown id before after order (some visiting) tracks topo idle e run =
      absurd (cc (idle id, ap is_visiting e))
  root_color-Grown id before after order (some visited) tracks topo idle e run =
      let same : before ≡ after = cc run in
      subst (λ a. (g : Grown (deps_of adjacency) before a order) × (elem id g.later ≡ true)) same
        (stays (deps_of adjacency) before order tracks topo, sym (tracks id) ∙ ap is_visited e)

  roots-Grown :
      (ids : List String) (before after : Dict Color) (order : List String)
      → Tracks before order
      → Topo (deps_of adjacency) order
      → Idle before
      → for_each (from_root fuel adjacency) ids before ≡ ok after
      → (g : Grown (deps_of adjacency) before after order) × Within ids g.later
  unfolding for_each from_root elem
  roots-Grown [] before after order tracks topo idle run =
      let same : before ≡ after = cc run in
      subst (λ a. (g : Grown (deps_of adjacency) before a order) × Within [] g.later) same
        (stays (deps_of adjacency) before order tracks topo, λ k m. absurd (cc m))
  roots-Grown (id ∷ ids) before after order tracks topo idle run =
      let (middle, first, then_) =
        >>=-eq-ok (from_root fuel adjacency id before) (for_each (from_root fuel adjacency) ids)
          run in
      let (g, here) =
        root_color-Grown id before middle order (get before id) tracks topo idle refl first in
      let (h, there) =
        roots-Grown ids middle after g.later g.tracks g.topo (λ k. g.same_visiting k ∙ idle k)
          then_ in
      (
        chain (deps_of adjacency) before middle after order g h,
        λ k m. elim (Bool-cases (id == k)) [
          | inl same ↦ subst (λ j. elem j h.later ≡ true) ((eq_iff id k).0 same) (h.keeps id here)
          | inr other ↦ there k (ground (arith, m, other))
        ],
      )

  module _ (order : List String) (topo : Topo (deps_of adjacency) order)
      (enough : (k : String) → elem k order ≡ true → rank order k < fuel) where
    root_color-Returns :
        (id : String) (before : Dict Color) (c : Option Color)
        → elem id order ≡ true
        → ((n : ℕ) → Ready order n before)
        → get before id ≡ c
        → Returns order (root_color (dfs fuel adjacency id) id c before) before
    root_color-Returns id before none there ready e =
        absurd (cc ((ready 0).0 id there, ap is_known e))
    root_color-Returns id before (some unvisited) there ready e =
        dfs-Complete adjacency order topo fuel id before there (enough id there)
          (ready (suc (rank order id)))
    root_color-Returns id before (some visiting) there ready e = record {
      after = before;
      returned = refl;
      same_visiting = λ k. refl;
      same_known = λ k. refl;
    }
    root_color-Returns id before (some visited) there ready e = record {
      after = before;
      returned = refl;
      same_visiting = λ k. refl;
      same_known = λ k. refl;
    }

    roots-Returns :
        (ids : List String) (before : Dict Color)
        → Within ids order
        → ((n : ℕ) → Ready order n before)
        → (after : Dict Color) × (for_each (from_root fuel adjacency) ids before ≡ ok after)
    unfolding for_each from_root elem
    roots-Returns [] before within ready = (before, refl)
    roots-Returns (id ∷ ids) before within ready =
        let one =
          root_color-Returns id before (get before id) (within id (ground (arith, eq_iff id id)))
            ready refl in
        let (last, run) =
          roots-Returns ids one.after (λ k m. within k (ground (arith, m)))
            (λ n. Ready-same order n before one.after one.same_visiting one.same_known (ready n)) in
        (last, ap (λ r. r >>= for_each (from_root fuel adjacency) ids) one.returned ∙ run)

pub Topo-cong :
    (f g : String → List String) (order : List String)
    → ((k : String) → f k ≡ g k)
    → Topo f order
    → Topo g order
Topo-cong f g [] same t = tt
Topo-cong f g (x ∷ order) same (before, new, t) =
    (subst (λ ds. Within ds order) (same x) before, new, Topo-cong f g order same t)

visited_known : (c : Option Color) → is_visited c ≡ true → is_known c ≡ true
visited_known none h = absurd (cc h)
visited_known (some c) h = refl

pub length-ids_of : (ts : List SubtaskSpec) → length (ids_of ts) ≡ length ts
length-ids_of [] = refl
length-ids_of (t ∷ ts) = ap suc (length-ids_of ts)

-- The colours that the search starts from.
module _ (ss : List SubtaskSpec) where
  unfoldable pub start : Dict Color
  start = fill (λ s. unvisited) ss []

  pub start_color :
      (f : Option Color → Bool) (k : String)
      → f (get start k) ≡ (if elem k (ids_of ss) then f (some unvisited) else f none)
  unfolding start get
  start_color f k = elim (Bool-cases (elem k (ids_of ss))) [
    | inl here ↦ ap f (fill_const unvisited ss [] k) ∙ rw here refl
    | inr gone ↦ ap f (fill_const unvisited ss [] k) ∙ rw gone refl
  ]

  pub start-Idle : Idle start
  start-Idle k = start_color is_visiting k ∙ ground arith

  pub start_known : (k : String) → is_known (get start k) ≡ elem k (ids_of ss)
  start_known k = start_color is_known k ∙ ground arith

  pub check_cycles-IsOrder :
      (after : Dict Color)
      → Distinct (ids_of ss)
      → check_cycles ss ≡ ok after
      → (order : List String) × IsOrder ss order
  unfolding check_cycles start elem
  check_cycles-IsOrder after distinct run =
      let (g, all_in) =
        roots-Grown (build_adjacency ss) (suc (length ss)) (ids_of ss) start after []
          (λ k. start_color is_visited k ∙ ground arith) tt start-Idle run in
      (
        g.later,
        record {
          topo =
              Topo-cong (deps_of (build_adjacency ss)) (dependencies ss) g.later
                (λ k. deps_of_lem ss k distinct) g.topo;
          same = λ k. elim (Bool-cases (elem k (ids_of ss))) [
            | inl here ↦ all_in k here ∙ sym here
            | inr gone ↦ elim (Bool-cases (elem k g.later)) [
              | inl late ↦ absurd (
                  cc (
                    visited_known (get after k) (g.tracks k ∙ late),
                    g.same_known k,
                    start_known k,
                    gone,
                  ))
              | inr right ↦ right ∙ sym gone
            ]
          ];
        },
      )

  pub IsOrder-rank :
      (order : List String)
      → IsOrder ss order
      → (k : String) → elem k order ≡ true
      → rank order k < suc (length ss)
  IsOrder-rank order o k there =
      let short =
        length-Within order (ids_of ss) (Topo-Distinct (dependencies ss) order o.topo)
          (λ j m. sym (o.same j) ∙ m) in
      let low = rank-lt order k there in omega (arith, short, low, length-ids_of ss)

  pub check_cycles-returns :
      (order : List String)
      → Distinct (ids_of ss)
      → IsOrder ss order
      → (after : Dict Color) × (check_cycles ss ≡ ok after)
  unfolding check_cycles start
  check_cycles-returns order distinct o =
      roots-Returns (build_adjacency ss) (suc (length ss)) order
        (Topo-cong (dependencies ss) (deps_of (build_adjacency ss)) order
          (λ k. sym (deps_of_lem ss k distinct)) o.topo)
        (IsOrder-rank order o) (ids_of ss) start (λ k m. o.same k ∙ m)
        (λ n. (λ k m. start_known k ∙ sym (o.same k) ∙ m, λ k m. absurd (cc (m, start-Idle k))))
