-- ===== src/Scheduling/Policy/Select.antt =====
-- Which job the scheduler selects.
use vai_core.Prelude.{Bool, false, some, List, [], ◌∷◌, ◌≡◌, ◌≢◌, refl, sym, subst, ◌∙◌}
use mathlib.Core.List.{Mem, Perm, mem-cons_self}
use mathlib.Core.List.Perm
use vai_core.Prelude.Sorting.{
  IsOrder, sorted, IsSorted, sorted-perm, sorted-IsSorted, Least-perm, Least-cons, irreflexive,
  sorted-nonempty,
}
use vai_core.Scheduling.Policy.{
  JobMetadata, SchedulingMode, fifo, priority_first, SchedulingDecision, by_fifo, by_priority,
  older, more_urgent, select_fifo, select_priority, select,
}
use vai_core.Scheduling.Policy.Order.{
  older-IsOrder, more_urgent-IsOrder, older-connex, more_urgent-connex,
}

-- The order that a mode goes by, and the decision for a job.
abbrev pub before : SchedulingMode → JobMetadata → JobMetadata → Bool
before fifo = older
before priority_first = more_urgent

abbrev pub decision : SchedulingMode → JobMetadata → SchedulingDecision
decision fifo best = record { job_id = some best.job_id; reason = by_fifo best.created_at }
decision priority_first best = record {
  job_id = some best.job_id;
  reason = by_priority best.priority best.created_at;
}

before-IsOrder : (mode : SchedulingMode) → IsOrder (before mode)
before-IsOrder fifo = older-IsOrder
before-IsOrder priority_first = more_urgent-IsOrder

-- `best` is in the list, and no job of the list goes before it.
abbrev pub IsBest : SchedulingMode → JobMetadata → List JobMetadata → Type 0
IsBest mode best jobs =
    Mem best jobs × ((j : JobMetadata) → Mem j jobs → before mode j best ≡ false)

head_of_sorted :
    (mode : SchedulingMode) (jobs l : List JobMetadata)
    → l ≢ []
    → l ≡ sorted (before mode) jobs
    → (best : JobMetadata) × (IsBest mode best jobs)
      × ((rest : List JobMetadata) × (l ≡ best ∷ rest))
head_of_sorted mode jobs [] some_job e = absurd (some_job refl)
head_of_sorted mode jobs (best ∷ rest) some_job e =
    let o = before-IsOrder mode in
    let p = sorted-perm (before mode) o jobs in
    let sorted_list =
      subst (IsSorted (before mode)) (sym e) (sorted-IsSorted (before mode) o jobs) in
    let same : Perm (best ∷ rest) jobs = rw e p in
    (
      best,
      (
        Perm.subset same best mem-cons_self,
        Least-perm (before mode) o best (best ∷ rest) jobs (Perm.symm same) (
            Least-cons (before mode) o best best rest (irreflexive (before mode) o best)
              sorted_list.0),
      ),
      (rest, refl),
    )

-- On a list that is not empty the scheduler decides for a job of the list that no other goes
-- before: the oldest, or the most urgent, with the smaller id where the rest is equal.
pub select-IsBest :
    (mode : SchedulingMode) (j : JobMetadata) (js : List JobMetadata)
    → (best : JobMetadata) × (IsBest mode best (j ∷ js))
      × (select mode (j ∷ js) ≡ decision mode best)
unfolding select select_fifo select_priority
select-IsBest fifo j js =
    let (best, is_best, (rest, e)) =
      head_of_sorted fifo (j ∷ js) _ (sorted-nonempty older older-IsOrder j (j ∷ js) mem-cons_self)
        refl in
    (best, is_best, rw e)
select-IsBest priority_first j js =
    let (best, is_best, (rest, e)) =
      head_of_sorted priority_first (j ∷ js) _
        (sorted-nonempty more_urgent more_urgent-IsOrder j (j ∷ js) mem-cons_self) refl in
    (best, is_best, rw e)

decision_unique :
    (mode : SchedulingMode) (x y : JobMetadata)
    → before mode x y ≡ false
    → before mode y x ≡ false
    → decision mode x ≡ decision mode y
decision_unique fifo x y h k = cc ((older-connex x y h k).0, (older-connex x y h k).1)
decision_unique priority_first x y h k = let (p, c, i) = more_urgent-connex x y h k in cc (p, c, i)

-- The decision does not depend on the order in which the jobs are listed.
pub select-perm :
    (mode : SchedulingMode) (xs ys : List JobMetadata)
    → Perm xs ys
    → select mode xs ≡ select mode ys
unfolding select
select-perm mode [] ys p = rw (← Perm.nil-eq p)
select-perm mode (x ∷ xs) [] p = rw (Perm.eq-nil p)
select-perm mode (x ∷ xs) (y ∷ ys) p =
    let (b, (b_in, b_least), e) = select-IsBest mode x xs in
    let (c, (c_in, c_least), f) = select-IsBest mode y ys in
    e
    ∙ (decision_unique mode b c (c_least b (Perm.subset p b b_in))
          (b_least c (Perm.subset (Perm.symm p) c c_in))
        ∙ sym f)
