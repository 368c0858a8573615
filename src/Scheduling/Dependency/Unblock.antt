-- ===== src/Scheduling/Dependency/Unblock.antt =====
-- The scan of the siblings, which releases those whose dependencies had succeeded.
use vai_core.Prelude.{
  true, false, ◌||◌, List, [], ◌∷◌, ◌++◌, String, ◌==◌, eq_iff, ok, ◌>>=◌, if◌then◌else◌, ◌≡◌, refl,
  sym, ap, ◌∙◌, subst, Bool-cases, inl, inr, arith, elem, Distinct,
}
use vai_core.Prelude.Dict.{Dict, get}
use vai_core.Jobs.Job.{Job}
use vai_core.Scheduling.Dependency.{Stores, unblock}
use vai_core.Scheduling.Dependency.Release.{Keyed, released, entries, all_entries, SameDone}
use vai_core.Scheduling.Dependency.Kept.{
  Step, append-nil, consider_lem, released-cong, entries-cong, Step-SameDone, Step-Keyed,
}

pub record Scanned (plan_id : String) (ids : List String) (old : Dict Job) (s t : Stores)
    : Type 0 where
  pub each :
      (k : String)
      → get t.jobs k ≡ (if elem k ids then released plan_id old (get old k) else get s.jobs k)
  pub appended : t.queue.items ≡ s.queue.items ++ all_entries plan_id old ids
  pub same_joins : t.joins ≡ s.joins

append_assoc : (xs ys zs : List Job) → (xs ++ ys) ++ zs ≡ xs ++ (ys ++ zs)
append_assoc [] ys zs = refl
append_assoc (x ∷ xs) ys zs = ap (λ us. x ∷ us) (append_assoc xs ys zs)

merge :
    (plan_id id : String) (ids : List String) (old : Dict Job) (s t : Stores) (k : String)
    → get s.jobs id ≡ get old id
    → SameDone old s.jobs
    → Step plan_id id s t
    → elem id ids ≡ false
    → (if elem k ids then released plan_id old (get old k) else get t.jobs k)
      ≡ (if elem k (id ∷ ids) then released plan_id old (get old k) else get s.jobs k)
unfolding elem
merge plan_id id ids old s t k here done step new = elim (Bool-cases (id == k)) [
  | inl same ↦
      let e = (eq_iff id k).0 same in
      let there =
        step.at_id
        ∙ released-cong plan_id old s.jobs done (get s.jobs id)
        ∙ ap (released plan_id old) here in
      subst
        (λ j.
          (if elem j ids then released plan_id old (get old j) else get t.jobs j)
          ≡ (if id == j || elem j ids then released plan_id old (get old j) else get s.jobs j))
        e (rw (new, (eq_iff id id).1 refl) there)
  | inr other ↦ rw (other, step.elsewhere k other) refl
]

pub unblock_lem :
    (plan_id : String) (ids : List String) (old : Dict Job) (s : Stores)
    → Keyed s.jobs
    → SameDone old s.jobs
    → Distinct ids
    → ((k : String) → elem k ids ≡ true → get s.jobs k ≡ get old k)
    → (t : Stores) × (unblock plan_id ids s ≡ ok t) × Scanned plan_id ids old s t
unfolding unblock all_entries elem
unblock_lem plan_id [] old s keyed done d agree = (
  s,
  refl,
  record { each = λ k. refl; appended = sym (append-nil s.queue.items); same_joins = refl },
)
unblock_lem plan_id (id ∷ ids) old s keyed done d agree =
    let here : get s.jobs id ≡ get old id = agree id (ground (arith, eq_iff id id)) in
    let one = consider_lem plan_id id s keyed in
    let step = one.2 in
    let apart : (k : String) → elem k ids ≡ true → id == k ≡ false =
      λ k m. ground (arith, d.0, m, eq_iff id k) in
    let rest =
      unblock_lem plan_id ids old one.0 (Step-Keyed plan_id id s one.0 step keyed)
        (λ k. Step-SameDone plan_id id s one.0 step k ∙ done k) d.1
        (λ k m. step.elsewhere k (apart k m) ∙ agree k (ground (arith, m))) in
    (
      rest.0,
      ap (λ r. r >>= unblock plan_id ids) one.1 ∙ rest.1,
      record {
        each = λ k. rest.2.each k ∙ merge plan_id id ids old s one.0 k here done step d.0;
        appended =
            rest.2.appended
            ∙ ap (λ xs. xs ++ all_entries plan_id old ids)
                (step.appended
                  ∙ ap (λ xs. s.queue.items ++ xs)
                      (entries-cong plan_id old s.jobs done (get s.jobs id)
                        ∙ ap (entries plan_id old) here))
            ∙ append_assoc s.queue.items (entries plan_id old (get old id))
                (all_entries plan_id old ids);
        same_joins = rest.2.same_joins ∙ step.same_joins;
      },
    )
