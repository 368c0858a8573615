-- ===== src/Decomposition/Dag/Ordered.antt =====
-- Lists of subtasks in which each comes after its dependencies.
use vai_core.Prelude.{
  true, false, ◌||◌, some, List, [], ◌∷◌, ◌++◌, String, ◌==◌, eq_iff, ◌≡◌, refl, ◌∙◌, subst, elem,
  All, Distinct, arith, Bool-cases, inl, inr,
}
use vai_core.Prelude.Dict.{Dict, get, put, get-put}
use vai_core.Prelude.Pigeonhole.{Within}
use vai_core.Decomposition.Dag.{SubtaskSpec, ids_of, fill}
use vai_core.Decomposition.Dag.Plan.{fill_absent, dependencies}

-- After the ids `done`, each subtask of the list is new and comes after its dependencies.
abbrev pub Ordered : (done : List String) → List SubtaskSpec → Type 0
Ordered done [] = Unit
Ordered done (x ∷ out) =
    Within x.depends_on done × (elem x.id done ≡ false) × Ordered (x.id ∷ done) out

pub snoc-Ordered :
    (done : List String) (out : List SubtaskSpec) (x : SubtaskSpec)
    → Ordered done out
    → ((d : String) → elem d x.depends_on ≡ true → (elem d done || elem d (ids_of out)) ≡ true)
    → (elem x.id done || elem x.id (ids_of out)) ≡ false
    → Ordered done (out ++ x ∷ [])
unfolding elem
snoc-Ordered done [] x ordered behind new =
    (λ d m. ground (arith, behind d m), ground (arith, new), tt)
snoc-Ordered done (y ∷ out) x (before, fresh, ordered) behind new = (
  before,
  fresh,
  snoc-Ordered (y.id ∷ done) out x ordered (λ d m. ground (arith, behind d m))
      (ground (arith, new)),
)

pub elem-snoc :
    (k : String) (out : List SubtaskSpec) (x : SubtaskSpec)
    → elem k (ids_of (out ++ x ∷ [])) ≡ (elem k (ids_of out) || x.id == k)
unfolding elem
elem-snoc k [] x = ground arith
elem-snoc k (y ∷ out) x = ground (arith, elem-snoc k out x)

pub snoc-All :
    (P : SubtaskSpec → Type 0) (out : List SubtaskSpec) (x : SubtaskSpec)
    → All P out
    → P x
    → All P (out ++ x ∷ [])
snoc-All P [] x every p = (p, tt)
snoc-All P (y ∷ out) x (q, qs) p = (q, snoc-All P out x qs p)

-- What the map of ids holds under an id of the plan.
pub found_in :
    (ss : List SubtaskSpec) (d : Dict SubtaskSpec) (k : String)
    → Distinct (ids_of ss)
    → elem k (ids_of ss) ≡ true
    → (x : SubtaskSpec) × (get (fill (λ s. s) ss d) k ≡ some x)
      × (x.id ≡ k)
      × (dependencies ss k ≡ x.depends_on)
unfolding fill elem dependencies
found_in [] d k distinct there = absurd (cc there)
found_in (s ∷ ss) d k (new, distinct) there = elim (Bool-cases (s.id == k)) [
  | inl same ↦
      let e = (eq_iff s.id k).0 same in
      let absent = subst (λ j. elem j (ids_of ss) ≡ false) e new in
      (
        s,
        fill_absent (λ t. t) ss (put d s.id s) k absent ∙ get-put d s.id k s ∙ rw same refl,
        e,
        rw same refl,
      )
  | inr other ↦
      let (x, at, own, deps) =
        found_in ss (put d s.id s) k distinct (ground (arith, there, other)) in
      (x, at, own, rw other deps)
]
