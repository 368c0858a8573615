-- ===== src/Memory/Eviction/Drift.antt =====
-- `EvictionRules.evict_by_drift`
pub mod Sharing
pub mod Bounds
use vai_core.Prelude.{
  ℕ, zero, suc, ◌-◌, ◌+◌, Bool, true, false, not, ◌&&◌, ◌||◌, Option, none, some, List, [], ◌∷◌,
  map, String, ltb, leb, length, elem, if◌then◌else◌,
}
use vai_core.Prelude.Texts.{text_lt}
use vai_core.Prelude.Sorting.{sorted}
use vai_core.Memory.Records.{DriftEvent}
use vai_core.Memory.Eviction.{
  EvictionDecision, DriftEvictionReport, drift_event_id, drift, by_drift, Age, behind, ahead,
}

-- `(x.timestamp, x.subgoal_id, x.signal_type) < (y.timestamp, y.subgoal_id, y.signal_type)`
unfoldable pub event_before : DriftEvent → DriftEvent → Bool
event_before x y =
    if ltb x.timestamp y.timestamp
    then true
    else if ltb y.timestamp x.timestamp
    then false
    else if text_lt x.subgoal_id y.subgoal_id
    then true
    else if text_lt y.subgoal_id x.subgoal_id
    then false
    else text_lt x.signal_type y.signal_type

-- `xs[:-1]` and `xs[-1]`, for the list `x ∷ xs`
abbrev pub but_last : {A : Type 0} → A → List A → List A
but_last x [] = []
but_last x (y ∷ ys) = x ∷ but_last y ys

abbrev pub last : {A : Type 0} → A → List A → A
last x [] = x
last x (y ∷ ys) = last y ys

-- `n_by_count`, 0 where the count evicts nothing
unfoldable pub count_evicted : (threshold_count n_candidates : ℕ) → ℕ
count_evicted zero n_candidates = 0
count_evicted (suc max_keep) n_candidates = n_candidates - max_keep

-- `now - e.timestamp > threshold_age_ms`, if that is positive
unfoldable pub too_old : (threshold_age_ms now : ℕ) → DriftEvent → Bool
too_old threshold_age_ms now e = ltb 0 threshold_age_ms && ltb (e.timestamp + threshold_age_ms) now

-- `[candidates[i] for i in sorted(to_evict_indices)]`, from the candidate at `i` on
unfoldable pub to_evict :
    (n_by_count threshold_age_ms : ℕ) (signal_patterns : List String) (now i : ℕ)
    → List DriftEvent
    → List DriftEvent
unfolding too_old elem
to_evict n_by_count threshold_age_ms signal_patterns now i [] = []
to_evict n_by_count threshold_age_ms signal_patterns now i (e ∷ es) =
    let rest = to_evict n_by_count threshold_age_ms signal_patterns now (suc i) es in
    if ltb i n_by_count || too_old threshold_age_ms now e || elem e.signal_type signal_patterns
    then e ∷ rest
    else rest

abbrev pub age_of : (now timestamp : ℕ) → Age
age_of now timestamp =
    if leb timestamp now then behind (now - timestamp) else ahead (timestamp - now)

module _ (stable_hash : DriftEvent → String) where
  abbrev pub drift_decision : (now i : ℕ) → DriftEvent → EvictionDecision
  drift_decision now i e = record {
    record_id = drift_event_id i (stable_hash e);
    record_type = "drift_event";
    reason = drift;
    evicted_at = now;
    details = by_drift e.timestamp e.subgoal_id e.signal_type (age_of now e.timestamp);
  }

  -- `for i, e in enumerate(es)`
  abbrev pub enumerate : {B : Type 0} → (ℕ → DriftEvent → B) → (i : ℕ) → List DriftEvent → List B
  enumerate f i [] = []
  enumerate f i (e ∷ es) = f i e ∷ enumerate f (suc i) es

  abbrev pub drift_report :
      (threshold_count threshold_age_ms : ℕ) (signal_patterns : List String) (now : ℕ)
      → List DriftEvent
      → DriftEvictionReport
  drift_report threshold_count threshold_age_ms signal_patterns now [] = record {
    evicted_drift_events = [];
    preserved_segment_id = none;
    generated_at = now;
  }
  drift_report threshold_count threshold_age_ms signal_patterns now (e ∷ es) = record {
    evicted_drift_events = enumerate (drift_decision now) 0 (
        to_evict (count_evicted threshold_count (length (but_last e es))) threshold_age_ms
          signal_patterns now 0 (but_last e es));
    preserved_segment_id = (last e es).segment_id;
    generated_at = now;
  }

  unfoldable pub evict_by_drift :
      List DriftEvent
      → (threshold_count threshold_age_ms : ℕ) (signal_patterns : List String) (now : ℕ)
      → DriftEvictionReport
  unfolding event_before count_evicted to_evict sorted
  evict_by_drift drift_events threshold_count threshold_age_ms signal_patterns now =
      drift_report threshold_count threshold_age_ms signal_patterns now
        (sorted event_before drift_events)
