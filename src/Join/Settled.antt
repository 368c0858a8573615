-- ===== src/Join/Settled.antt =====
-- The state of a join handle after any sequence of reports, against the reports.
use vai_core.Prelude.{
  ℕ, ◌+◌, ◌≤◌, true, false, ◌||◌, ◌&&◌, List, [], ◌∷◌, ◌++◌, String, ◌≡◌, ◌≢◌, refl, length,
  length-append, elem, elem-append, Distinct, arith, if◌then◌else◌, leb, eqb, all, sym, ap, subst,
  ◌∙◌,
}
use vai_core.Join.{JoinHandle, waiting, completed, failed, is_ready, all_succeeded}
use vai_core.Prelude.Pigeonhole.{Within, length-Within, leb-all, all-cong, append-Distinct}
use vai_core.Join.Count.{IsValid}
use vai_core.Join.Reports.{
  Report, report_all, has_success, has_failure, IsFresh, report_all-IsValid, report_all-Reached,
}

length-pos : (xs : List String) → xs ≢ [] → 1 ≤ length xs
length-pos [] h = absurd (h refl)
length-pos (x ∷ xs) h = omega arith

empty-Within : (xs ys : List String) → xs ≡ [] → Within xs ys
unfolding elem
empty-Within [] ys h x m = absurd (cc m)
empty-Within (y ∷ xs) ys h x m = absurd (cc h)

empty-Distinct : (xs : List String) → xs ≡ [] → Distinct xs
empty-Distinct xs h = subst (λ ys. Distinct ys) (sym h) tt

empty-length : (xs : List String) → xs ≡ [] → length xs ≡ 0
empty-length xs h = ap length h

fresh-IsValid : (h : JoinHandle) → IsFresh h → IsValid h
unfolding is_ready
fresh-IsValid h fresh = record {
  completed_once = empty-Distinct h.completed_ids fresh.no_completed;
  completed_within = empty-Within h.completed_ids h.child_job_ids fresh.no_completed;
  failed_once = empty-Distinct h.failed_ids fresh.no_failed;
  failed_within = empty-Within h.failed_ids h.child_job_ids fresh.no_failed;
  decided =
      let c = empty-length h.completed_ids fresh.no_completed in
      let f = empty-length h.failed_ids fresh.no_failed in
      ground (arith, c, f, length-pos h.child_job_ids fresh.has_children, fresh.is_waiting);
}

decide :
    (n c f : ℕ)
    → c + f ≤ n
    → (if leb n (c + f) then (if eqb c n && eqb f 0 then completed else failed) else waiting)
      ≡ (if leb n (c + f) then (if leb n c then completed else failed) else waiting)
decide n c f bound = ground arith

-- The three counts decide as the two full lists do.
verdict-all :
    (h : JoinHandle)
    → IsValid h
    → Distinct h.child_job_ids
    → ((x : String) → elem x h.completed_ids ≡ true → elem x h.failed_ids ≡ false)
    → h.state ≡ (
        if all (λ x. elem x h.completed_ids || elem x h.failed_ids) h.child_job_ids
        then (if all (λ x. elem x h.completed_ids) h.child_job_ids then completed else failed)
        else waiting)
unfolding is_ready all_succeeded
verdict-all h v d apart =
    let both = append-Distinct h.completed_ids h.failed_ids v.completed_once v.failed_once apart in
    let inside : Within (h.completed_ids ++ h.failed_ids) h.child_job_ids = λ x m. ground (
      arith,
      m,
      elem-append x h.completed_ids h.failed_ids,
      v.completed_within x,
      v.failed_within x,
    ) in
    let ready = leb-all (h.completed_ids ++ h.failed_ids) h.child_job_ids both d inside in
    let succeeded = leb-all h.completed_ids h.child_job_ids v.completed_once d v.completed_within in
    let bound = length-Within (h.completed_ids ++ h.failed_ids) h.child_job_ids both inside in
    let split =
      all-cong (λ x. elem x (h.completed_ids ++ h.failed_ids))
        (λ x. elem x h.completed_ids || elem x h.failed_ids) h.child_job_ids
        (λ x m. elem-append x h.completed_ids h.failed_ids) in
    rw (v.decided, sym split, sym ready, sym succeeded, length-append h.completed_ids h.failed_ids)
      (decide (length h.child_job_ids) (length h.completed_ids) (length h.failed_ids)
        (omega (arith, bound, length-append h.completed_ids h.failed_ids)))

-- After any reports on the distinct children of a fresh handle, none of which both succeeded and
-- failed, the handle waits while some child has not been reported, is completed when every child was
-- reported as a success, and failed otherwise; reports on jobs that are no children, repeated
-- reports and the order of the reports make no difference.
pub report_all-settles :
    (h : JoinHandle) (rs : List Report)
    → IsFresh h
    → Distinct h.child_job_ids
    → ((x : String) → has_success rs x ≡ true → has_failure rs x ≡ false)
    → (report_all rs h).state ≡ (
        if all (λ x. has_success rs x || has_failure rs x) h.child_job_ids
        then (if all (has_success rs) h.child_job_ids then completed else failed)
        else waiting)
unfolding elem
report_all-settles h rs fresh d apart =
    let after = report_all-Reached rs h in
    let valid = report_all-IsValid rs h (fresh-IsValid h fresh) in
    let done : (x : String)
        → elem x (report_all rs h).completed_ids ≡ (elem x h.child_job_ids && has_success rs x) =
      λ x.
        after.completed_are x
        ∙ ap (λ ys. elem x ys || (elem x h.child_job_ids && has_success rs x)) fresh.no_completed in
    let broke : (x : String)
        → elem x (report_all rs h).failed_ids ≡ (elem x h.child_job_ids && has_failure rs x) =
      λ x.
        after.failed_are x
        ∙ ap (λ ys. elem x ys || (elem x h.child_job_ids && has_failure rs x)) fresh.no_failed in
    let split =
      verdict-all (report_all rs h) valid (subst (λ ys. Distinct ys) (sym after.same_children) d)
        (λ x m. ground (arith, m, done x, broke x, apart x)) in
    let ended =
      all-cong (λ x. elem x (report_all rs h).completed_ids || elem x (report_all rs h).failed_ids)
        (λ x. has_success rs x || has_failure rs x) h.child_job_ids
        (λ x m. ground (arith, m, done x, broke x)) in
    let won =
      all-cong (λ x. elem x (report_all rs h).completed_ids) (has_success rs) h.child_job_ids
        (λ x m. ground (arith, m, done x)) in
    cc (split, after.same_children, ended, won)
