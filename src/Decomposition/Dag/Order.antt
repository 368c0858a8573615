-- ===== src/Decomposition/Dag/Order.antt =====
-- Orders of the nodes of a graph in which each stands after its dependencies.
use vai_core.Prelude.{
  ℕ, ◌<◌, true, false, List, [], ◌∷◌, String, ◌==◌, eq_iff, ◌≡◌, refl, length, elem, Distinct,
  if◌then◌else◌, arith, Bool-cases, inl, inr, subst, sym,
}
use vai_core.Prelude.Pigeonhole.{Within}

module _ (deps : String → List String) where
  -- The latest first: the dependencies of each node stand behind it.
  abbrev pub Topo : List String → Type 0
  Topo [] = Unit
  Topo (x ∷ order) = Within (deps x) order × (elem x order ≡ false) × Topo order

  pub Topo-Distinct : (order : List String) → Topo order → Distinct order
  Topo-Distinct [] t = tt
  Topo-Distinct (x ∷ order) (before, new, t) = (new, Topo-Distinct order t)

-- How many nodes stand behind.
unfoldable pub rank : List String → String → ℕ
rank [] x = 0
rank (y ∷ order) x = if y == x then length order else rank order x

pub rank-lt : (order : List String) (x : String) → elem x order ≡ true → rank order x < length order
unfolding rank elem
rank-lt [] x there = absurd (cc there)
rank-lt (y ∷ order) x there = ground (arith, rank-lt order x)

distinct_of :
    (y d : String) (order : List String)
    → elem y order ≡ false
    → elem d order ≡ true
    → y == d ≡ false
distinct_of y d order new behind = elim (Bool-cases (y == d)) [
  | inl same ↦ absurd (cc (new, behind, (eq_iff y d).0 same))
  | inr other ↦ other
]

rest_of :
    (y x : String) (order : List String)
    → elem x (y ∷ order) ≡ true
    → y == x ≡ false
    → elem x order ≡ true
unfolding elem
rest_of y x order there other = ground (arith, there, other)

module _ (deps : String → List String) where
  pub Topo-rank :
      (order : List String) (x d : String)
      → Topo deps order
      → elem x order ≡ true
      → elem d (deps x) ≡ true
      → (elem d order ≡ true) × (rank order d < rank order x)
  unfolding rank elem
  Topo-rank [] x d t there dep = absurd (cc there)
  Topo-rank (y ∷ order) x d (before, new, t) there dep = elim (Bool-cases (y == x)) [
    | inl same ↦
        let behind =
          before d (subst (λ z. elem d (deps z) ≡ true) (sym ((eq_iff y x).0 same)) dep) in
        let apart = distinct_of y d order new behind in
        let low = rank-lt order d behind in (rw (apart, behind) refl, rw (apart, same) low)
    | inr other ↦
        let (behind, low) = Topo-rank order x d t (rest_of y x order there other) dep in
        let apart = distinct_of y d order new behind in
        (rw (apart, behind) refl, rw (apart, other) low)
  ]
