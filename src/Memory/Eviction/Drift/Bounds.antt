-- ===== src/Memory/Eviction/Drift/Bounds.antt =====
-- How the rule by drift shares out the events of a store, and how many it evicts.
use vai_core.Prelude.{
  ℕ, zero, suc, ◌-◌, ◌+◌, ◌≤◌, Bool, true, false, ◌||◌, List, [], ◌∷◌, ◌++◌, String, ltb, length,
  elem, ◌≡◌, ◌≢◌, refl, sym, ap, ◌∙◌, inl, inr, arith, Bool-cases, ◌⊎◌,
}
use mathlib.Core.List.{Mem, Perm}
use mathlib.Core.List.Perm
use vai_core.Prelude.Texts.{text_lt-asymm, text_lt-not_trans}
use vai_core.Prelude.Sorting.{IsOrder, insert, sorted, IsSorted, sorted-perm, sorted-IsSorted}
use vai_core.Memory.Records.{DriftEvent}
use vai_core.Memory.Eviction.{DriftEvictionReport}
use vai_core.Memory.Eviction.Drift.Sharing.{
  stay, to_evict-perm, stay_spared, late_due, early_oldest, last-perm, but_last-IsSorted,
  last-Greatest,
}
use vai_core.Memory.Eviction.Drift.{
  event_before, but_last, last, count_evicted, too_old, to_evict, enumerate, drift_decision,
  drift_report, evict_by_drift,
}

event_before-IsOrder : IsOrder event_before
unfolding event_before
event_before-IsOrder = record {
  asymm = λ x y h.
      ground
        (arith, text_lt-asymm x.subgoal_id y.subgoal_id, text_lt-asymm x.signal_type y.signal_type);
  not_trans = λ x y z h k. ground (
    arith,
    text_lt-not_trans x.subgoal_id y.subgoal_id z.subgoal_id,
    text_lt-not_trans y.subgoal_id z.subgoal_id x.subgoal_id,
    text_lt-not_trans z.subgoal_id x.subgoal_id y.subgoal_id,
    text_lt-asymm x.subgoal_id y.subgoal_id,
    text_lt-asymm y.subgoal_id z.subgoal_id,
    text_lt-asymm x.subgoal_id z.subgoal_id,
    text_lt-not_trans x.signal_type y.signal_type z.signal_type,
  );
}

pub length-but_last :
    {A : Type 0} (x : A) (xs : List A) → length (x ∷ xs) ≡ suc (length (but_last x xs))
length-but_last x [] = refl
length-but_last x (y ∷ xs) = ap suc (length-but_last y xs)

module _ (k age : ℕ) (patterns : List String) (now : ℕ) where
  -- The first `k - i` of the events from place `i` on are evicted, at least.
  count-to_evict :
      (i : ℕ) (es : List DriftEvent)
      → k ≤ i + length es
      → k ≤ i + length (to_evict k age patterns now i es)
  unfolding to_evict
  count-to_evict i [] enough = enough
  count-to_evict i (e ∷ es) enough =
      elim (Bool-cases (ltb i k || too_old age now e || elem e.signal_type patterns)) [
        | inl hit ↦ rw hit (omega (arith, count-to_evict (suc i) es (omega (arith, enough))))
        | inr miss ↦ rw miss (
            ground (arith, passed (ltb i k) (too_old age now e) (elem e.signal_type patterns) miss))
      ]
    where
      passed : (a b c : Bool) → (a || b || c) ≡ false → a ≡ false
      passed a b c h = ground (arith, h)

module _ {A : Type 0} (lt : A → A → Bool) where
  length-insert : (x : A) (xs : List A) → length (insert lt x xs) ≡ suc (length xs)
  unfolding insert
  length-insert x [] = refl
  length-insert x (y ∷ xs) = elim (Bool-cases (lt y x)) [
    | inl later ↦ rw later (ap suc (length-insert x xs))
    | inr here ↦ rw here refl
  ]

  pub length-sorted : (xs : List A) → length (sorted lt xs) ≡ length xs
  unfolding sorted
  length-sorted [] = refl
  length-sorted (x ∷ xs) = length-insert x (sorted lt xs) ∙ ap suc (length-sorted xs)

module _ (stable_hash : DriftEvent → String) where
  length-enumerate :
      {B : Type 0} (f : ℕ → DriftEvent → B) (i : ℕ) (es : List DriftEvent)
      → length (enumerate stable_hash f i es) ≡ length es
  length-enumerate f i [] = refl
  length-enumerate f i (e ∷ es) = ap suc (length-enumerate f (suc i) es)

  -- How a report shares out the events that it is about: into a latest one, which is kept, those that
  -- it evicts, and those that are left with the one that is kept.
  pub record Preserves (events : List DriftEvent) (threshold_count age : ℕ) (patterns : List String)
      (now : ℕ) (r : DriftEvictionReport) : Type 0 where
    pub kept : DriftEvent
    pub evicted : List DriftEvent
    pub left : List DriftEvent
    pub shared_out : Perm (kept ∷ evicted ++ left) events
    pub latest : (e : DriftEvent) → Mem e events → event_before kept e ≡ false
    pub preserved : r.preserved_segment_id ≡ kept.segment_id
    pub decides :
        r.evicted_drift_events ≡ enumerate stable_hash (drift_decision stable_hash now) 0 evicted
    pub spared :
        (e : DriftEvent) → Mem e left → (too_old age now e || elem e.signal_type patterns) ≡ false
    pub due :
        ltb 0 threshold_count ≡ false
        → (e : DriftEvent) → Mem e evicted
        → (too_old age now e || elem e.signal_type patterns) ≡ true
    pub oldest :
        (e y : DriftEvent)
        → Mem e evicted
        → (too_old age now e || elem e.signal_type patterns) ≡ false
        → Mem y left
        → event_before y e ≡ false
    pub bounded :
        (ltb 0 threshold_count ≡ false)
        ⊎ (length events ≤ length r.evicted_drift_events + threshold_count)

  report-Preserves :
      (threshold_count age : ℕ) (patterns : List String) (now : ℕ) (e : DriftEvent)
      (es : List DriftEvent)
      → IsSorted event_before (e ∷ es)
      → Preserves
          (e ∷ es)
          threshold_count
          age
          patterns
          now
          (drift_report stable_hash threshold_count age patterns now (e ∷ es))
  unfolding count_evicted
  report-Preserves c age patterns now e es s =
      let front = but_last e es in
      let n = count_evicted c (length front) in
      let out = to_evict n age patterns now 0 front in
      record {
        kept = last e es;
        evicted = out;
        left = stay n age patterns now 0 front;
        shared_out =
            Perm.trans (Perm.cons (last e es) (to_evict-perm n age patterns now 0 front))
              (last-perm e es);
        latest = last-Greatest event_before event_before-IsOrder e es s;
        preserved = refl;
        decides = refl;
        spared = stay_spared n age patterns now 0 front;
        due = λ off x m. late_due n age patterns now 0 front x (none_by_count c off) m;
        oldest = early_oldest n age patterns now 0 front (but_last-IsSorted event_before e es s);
        bounded =
            counted c (length-enumerate (drift_decision stable_hash now) 0 out)
              (length-but_last e es);
      }
    where
      none_by_count : (t : ℕ) → ltb 0 t ≡ false → count_evicted t (length (but_last e es)) ≤ 0
      none_by_count zero off = omega arith
      none_by_count (suc t) off = absurd (ground (arith, off))

      counted :
          (t : ℕ)
          → length (
              enumerate stable_hash (drift_decision stable_hash now) 0 (
                to_evict
                  (count_evicted t (length (but_last e es)))
                  age
                  patterns
                  now
                  0
                  (but_last e es)))
            ≡ length (
                to_evict
                  (count_evicted t (length (but_last e es)))
                  age
                  patterns
                  now
                  0
                  (but_last e es))
          → length (e ∷ es) ≡ suc (length (but_last e es))
          → (ltb 0 t ≡ false)
            ⊎ (length (e ∷ es)
                ≤ length (
                    enumerate stable_hash (drift_decision stable_hash now) 0 (
                      to_evict
                        (count_evicted t (length (but_last e es)))
                        age
                        patterns
                        now
                        0
                        (but_last e es)))
                  + t)
      counted zero evicted whole = inl refl
      counted (suc t) evicted whole =
          let least =
            count-to_evict (length (but_last e es) - t) age patterns now 0 (but_last e es)
              (omega arith) in
          inr (omega (arith, evicted, whole, least))

-- Of a store that has events, the rule by drift keeps an event that no other goes after, and reports
-- its segment. It shares out the others, each once, into those that it evicts, one decision for each,
-- and those that are left. No event that is left is too old or has a signal of the patterns, and no
-- event is left that goes before one that is evicted for its number alone. With a count threshold of
-- 0 only events that are too old or of a pattern are evicted; with a positive one, the event that is
-- kept and those left are no more than the threshold.
pub evict_by_drift-Preserves :
    (stable_hash : DriftEvent → String) (events : List DriftEvent) (threshold_count age : ℕ)
    (patterns : List String) (now : ℕ)
    → events ≢ []
    → Preserves stable_hash events threshold_count age patterns now
        (evict_by_drift stable_hash events threshold_count age patterns now)
unfolding evict_by_drift
evict_by_drift-Preserves stable_hash events c age patterns now some_event =
    over (sorted event_before events) (sorted-perm event_before event_before-IsOrder events)
      (sorted-IsSorted event_before event_before-IsOrder events) (length-sorted event_before events)
  where
    over :
        (l : List DriftEvent)
        → Perm l events
        → IsSorted event_before l
        → length l ≡ length events
        → Preserves stable_hash events c age patterns now
            (drift_report stable_hash c age patterns now l)
    over [] p s same = absurd (some_event (sym (Perm.nil-eq p)))
    over (e ∷ es) p s same =
        let r = report-Preserves stable_hash c age patterns now e es s in
        record {
          kept = r.kept;
          evicted = r.evicted;
          left = r.left;
          shared_out = Perm.trans r.shared_out p;
          latest = λ x m. r.latest x (Perm.subset (Perm.symm p) x m);
          preserved = r.preserved;
          decides = r.decides;
          spared = r.spared;
          due = r.due;
          oldest = r.oldest;
          bounded = elim r.bounded [ inl off ↦ inl off | inr low ↦ inr (omega (arith, low, same)) ];
        }
