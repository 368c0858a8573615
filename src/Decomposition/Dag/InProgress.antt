-- ===== src/Decomposition/Dag/InProgress.antt =====
-- The nodes in progress during a search, and what keeps the loop over dependencies from being cut off.
use vai_core.Prelude.{
  ◌≤◌, true, Option, none, some, List, [], ◌∷◌, String, Result, ok, err, ◌>>=◌, ◌≡◌, ◌≢◌, refl, sym,
  ap, ◌∙◌, length, elem, Distinct, arith, Bool-cases, inl, inr,
}
use vai_core.Prelude.Dict.{Dict, get, put}
use vai_core.Prelude.Pigeonhole.{length-Within}
use vai_core.Decomposition.Dag.{
  DagError, no_fuel, Color, unvisited, visiting, visited, for_each, on_color, follow_dep,
}
use vai_core.Decomposition.Dag.Order.{Topo}
use vai_core.Decomposition.Dag.Sound.{
  is_visiting, is_unvisited, is_known, Tracks, Sound, put-test, put-test_same, on_color-Grown,
  unvisited_facts,
}

-- A chain is cut off only if one of its parts is.
pub chain_fuel :
    {A B : Type 0} (first : Result DagError A) (next : A → Result DagError B)
    → first ≢ err no_fuel
    → ((a : A) → first ≡ ok a → next a ≢ err no_fuel)
    → (first >>= next) ≢ err no_fuel
chain_fuel (ok a) next whole rest = rest a refl
chain_fuel (err e) next whole rest = λ cut. whole (cc cut)

visiting_known : (c : Option Color) → is_visiting c ≡ true → is_known c ≡ true
visiting_known none h = absurd (cc h)
visiting_known (some c) h = refl

module _ (ids : List String) where
  -- The nodes in progress: distinct, and coloured so; only ids have a colour.
  abbrev pub InProgress : List String → Dict Color → Type 0
  InProgress stack state =
      Distinct stack
      × ((k : String) → elem k stack ≡ true → is_visiting (get state k) ≡ true)
      × ((k : String) → is_known (get state k) ≡ true → elem k ids ≡ true)

  InProgress-same :
      (stack : List String) (before after : Dict Color)
      → ((k : String) → is_visiting (get after k) ≡ is_visiting (get before k))
      → ((k : String) → is_known (get after k) ≡ is_known (get before k))
      → InProgress stack before
      → InProgress stack after
  InProgress-same stack before after sv sk (distinct, busy, known) =
      (distinct, λ k m. sv k ∙ busy k m, λ k m. known k (sym (sk k) ∙ m))

  pub length-InProgress :
      (stack : List String) (state : Dict Color)
      → InProgress stack state
      → length stack ≤ length ids
  length-InProgress stack state (distinct, busy, known) =
      length-Within stack ids distinct (λ k m. known k (visiting_known (get state k) (busy k m)))

  pub put-InProgress :
      (stack : List String) (node : String) (before : Dict Color)
      → is_unvisited (get before node) ≡ true
      → InProgress stack before
      → InProgress (node ∷ stack) (put before node visiting)
  unfolding elem
  put-InProgress stack node before fresh (distinct, busy, known) =
      let (white, idle, there) = unvisited_facts (get before node) fresh in
      (
        (
          elim (Bool-cases (elem node stack)) [
            | inl old ↦ absurd (cc (busy node old, idle))
            | inr new ↦ new
          ],
          distinct,
        ),
        λ k m. put-test is_visiting before node visiting k ∙ ground (arith, m, busy k),
        λ k m. known k (sym (put-test_same is_known before node visiting (sym there) k) ∙ m),
      )

  module _ (deps : String → List String) where
    abbrev pub Whole :
        (stack : List String) → (String → Dict Color → Result DagError (Dict Color)) → Type 0
    Whole stack step =
        (node : String) (before : Dict Color) (order : List String)
        → Tracks before order
        → Topo deps order
        → is_unvisited (get before node) ≡ true
        → InProgress stack before
        → step node before ≢ err no_fuel

    on_color_fuel :
        (stack : List String) (step : String → Dict Color → Result DagError (Dict Color))
        (node dep : String) (before : Dict Color) (order : List String) (c : Option Color)
        → Whole stack step
        → Tracks before order
        → Topo deps order
        → InProgress stack before
        → get before dep ≡ c
        → on_color step node dep c before ≢ err no_fuel
    on_color_fuel stack step node dep before order none whole tracks topo path e =
        λ cut. absurd (cc cut)
    on_color_fuel stack step node dep before order (some visiting) whole tracks topo path e =
        λ cut. absurd (cc cut)
    on_color_fuel stack step node dep before order (some visited) whole tracks topo path e =
        λ cut. absurd (cc cut)
    on_color_fuel stack step node dep before order (some unvisited) whole tracks topo path e =
        whole dep before order tracks topo (ap is_unvisited e) path

    pub for_each_fuel :
        (stack : List String) (step : String → Dict Color → Result DagError (Dict Color))
        (node : String) (ds : List String) (before : Dict Color) (order : List String)
        → Whole stack step
        → Sound deps step
        → Tracks before order
        → Topo deps order
        → InProgress stack before
        → for_each (follow_dep step node) ds before ≢ err no_fuel
    unfolding for_each follow_dep
    for_each_fuel stack step node [] before order whole sound tracks topo path =
        λ cut. absurd (cc cut)
    for_each_fuel stack step node (d ∷ ds) before order whole sound tracks topo path =
        chain_fuel (on_color step node d (get before d) before) (for_each (follow_dep step node) ds)
          (on_color_fuel stack step node d before order (get before d) whole tracks topo path refl)
          (λ middle first.
            let (g, here) =
              on_color-Grown deps step node d before middle order (get before d) sound tracks topo
                refl first in
            for_each_fuel stack step node ds middle g.later whole sound g.tracks g.topo
              (InProgress-same stack before middle g.same_visiting g.same_known path))
