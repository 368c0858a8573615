-- ===== src/Decomposition/Dag/Plan.antt =====
-- The dictionaries that the validator builds from a plan, and what makes a plan an acyclic graph.
use vai_core.Prelude.{
  suc, ◌≤◌, Bool, false, ◌||◌, none, some, List, [], ◌∷◌, String, ◌==◌, eq_iff, ◌≡◌, refl, sym, ap,
  ◌∙◌, subst, ◌↔◌, length, elem, All, Distinct, if◌then◌else◌, arith, Bool-cases, inl, inr,
}
use vai_core.Prelude.Dict.{Dict, get, put, get-put, get-put_self}
use vai_core.Decomposition.Dag.{
  SubtaskSpec, ids_of, to_set, fill, build_adjacency, deps_of, or_empty,
}
use vai_core.Decomposition.Dag.Order.{Topo}

module _ {V : Type 0} (v : SubtaskSpec → V) where
  pub fill_absent :
      (ss : List SubtaskSpec) (d : Dict V) (k : String)
      → elem k (ids_of ss) ≡ false
      → get (fill v ss d) k ≡ get d k
  unfolding fill elem
  fill_absent [] d k absent = refl
  fill_absent (s ∷ ss) d k absent =
      let (other, rest) = or_false (s.id == k) (elem k (ids_of ss)) absent in
      fill_absent ss (put d s.id (v s)) k rest ∙ get-put d s.id k (v s) ∙ rw other refl
    where
      or_false : (a b : Bool) → (a || b) ≡ false → (a ≡ false) × (b ≡ false)
      or_false a b h = ground (arith, h)

  pub fill_each :
      (ss : List SubtaskSpec) (d : Dict V)
      → Distinct (ids_of ss)
      → All (λ s. get (fill v ss d) s.id ≡ some (v s)) ss
  unfolding fill
  fill_each [] d distinct = tt
  fill_each (s ∷ ss) d (new, distinct) = (
    fill_absent ss (put d s.id (v s)) s.id new ∙ get-put_self d s.id (v s),
    fill_each ss (put d s.id (v s)) distinct,
  )

-- One value for every key.
pub fill_const :
    {V : Type 0} (c : V) (ss : List SubtaskSpec) (d : Dict V) (k : String)
    → get (fill (λ s. c) ss d) k ≡ (if elem k (ids_of ss) then some c else get d k)
unfolding fill elem
fill_const c [] d k = refl
fill_const c (s ∷ ss) d k = elim (Bool-cases (s.id == k)) [
  | inl same ↦ fill_const c ss (put d s.id c) k ∙ rw (get-put d s.id k c, same) (ground arith)
  | inr other ↦ fill_const c ss (put d s.id c) k ∙ rw (get-put d s.id k c, other) refl
]

-- The dependencies that the plan states for an id.
unfoldable pub dependencies : List SubtaskSpec → String → List String
dependencies [] k = []
dependencies (s ∷ ss) k = if s.id == k then s.depends_on else dependencies ss k

adjacency-dependencies :
    (ts : List SubtaskSpec) (d : Dict (List String)) (k : String)
    → Distinct (ids_of ts)
    → get d k ≡ none
    → or_empty (get (fill (λ s. s.depends_on) ts d) k) ≡ dependencies ts k
unfolding fill dependencies
adjacency-dependencies [] d k distinct free = ap or_empty free
adjacency-dependencies (s ∷ ts) d k (new, distinct) free = elim (Bool-cases (s.id == k)) [
  | inl same ↦
      let absent = subst (λ j. elem j (ids_of ts) ≡ false) ((eq_iff s.id k).0 same) new in
      ap or_empty (
        fill_absent (λ t. t.depends_on) ts (put d s.id s.depends_on) k absent
        ∙ get-put d s.id k s.depends_on)
      ∙ rw same refl
  | inr other ↦
      adjacency-dependencies ts (put d s.id s.depends_on) k distinct
        (get-put d s.id k s.depends_on ∙ rw other free)
      ∙ rw other refl
]

pub deps_of_lem :
    (ss : List SubtaskSpec) (k : String)
    → Distinct (ids_of ss)
    → deps_of (build_adjacency ss) k ≡ dependencies ss k
unfolding deps_of build_adjacency get
deps_of_lem ss k distinct = adjacency-dependencies ss [] k distinct refl

-- An order of all the ids in which each stands after its dependencies, the latest first.
pub record IsOrder (ss : List SubtaskSpec) (order : List String) : Type 0 where
  pub topo : Topo (dependencies ss) order
  pub same : (k : String) → elem k order ≡ elem k (ids_of ss)

pub elem-to_set : (x : String) (xs : List String) → elem x (to_set xs) ≡ elem x xs
unfolding to_set elem
elem-to_set x [] = refl
elem-to_set x (y ∷ ys) = elim (Bool-cases (elem y (to_set ys))) [
  | inl old ↦ rw old (ground (arith, elem-to_set x ys, elem-to_set y ys, eq_iff y x))
  | inr new ↦ rw new (ground (arith, elem-to_set x ys))
]

length-to_set : (xs : List String) → length (to_set xs) ≤ length xs
unfolding to_set
length-to_set [] = omega arith
length-to_set (x ∷ xs) = ground (arith, length-to_set xs)

pub to_set-Distinct : (xs : List String) → (length (to_set xs) ≡ length xs) ↔ Distinct xs
unfolding to_set
to_set-Distinct [] = (λ e. tt, λ d. refl)
to_set-Distinct (x ∷ xs) = elim (Bool-cases (elem x (to_set xs))) [
  | inl old ↦ rw old (
    λ e. absurd (omega (arith, e, length-to_set xs)),
    λ d. absurd (cc (d.0, elem-to_set x xs, old)),
  )
  | inr new ↦ rw new (
    λ e. (sym (elem-to_set x xs) ∙ new, (to_set-Distinct xs).0 (omega (arith, e))),
    λ d. ap suc ((to_set-Distinct xs).1 d.1),
  )
]
