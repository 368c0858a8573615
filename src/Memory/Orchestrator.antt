-- ===== src/Memory/Orchestrator.antt =====
-- What applies the evictions of drift events to their buffer
-- (src/agent/memory/eviction/eviction_orchestrator.py).
pub mod Overflow
use vai_core.Prelude.{
  ℕ, suc, Bool, true, false, ◌&&◌, List, [], ◌∷◌, String, ◌==◌, eqb, any, if◌then◌else◌,
}
use vai_core.Prelude.Sorting.{sorted}
use vai_core.Memory.Records.{DriftEvent}
use vai_core.Memory.DriftMemory.{DriftMemory, remove_events}
use vai_core.Memory.Eviction.{EvictedId, record_key, drift_event_id, EvictionDecision}
use vai_core.Memory.Eviction.Drift.{event_before, evict_by_drift}

-- `id in decision_ids`, for the id of an event
abbrev pub is_event_id : (ordinal : ℕ) (hash : String) → EvictedId → Bool
is_event_id ordinal hash (record_key k) = false
is_event_id ordinal hash (drift_event_id n h) = eqb n ordinal && h == hash

module _ (stable_hash : DriftEvent → String) where
  abbrev pub evicts : List EvictionDecision → (ordinal : ℕ) → DriftEvent → Bool
  evicts decisions i e = any (λ d. is_event_id i (stable_hash e) d.record_id) decisions

  -- `[e for i, e in enumerate(sorted_events) if _drift_event_id(i, e) in decision_ids]`, from place `i` on
  unfoldable pub events_to_remove :
      List EvictionDecision → (i : ℕ) → List DriftEvent → List DriftEvent
  unfolding any
  events_to_remove decisions i [] = []
  events_to_remove decisions i (e ∷ es) =
      let rest = events_to_remove decisions (suc i) es in
      if evicts decisions i e then e ∷ rest else rest

  unfoldable pub remove_drift_by_decisions :
      List EvictionDecision → List DriftEvent → DriftMemory → DriftMemory
  unfolding events_to_remove remove_events sorted event_before
  remove_drift_by_decisions [] all_events memory = memory
  remove_drift_by_decisions (d ∷ decisions) all_events memory =
      remove_events (events_to_remove (d ∷ decisions) 0 (sorted event_before all_events)) memory

  unfoldable pub on_drift_overflow :
      (now threshold_count threshold_age_ms : ℕ) (signal_patterns : List String)
      → DriftMemory
      → DriftMemory
  unfolding remove_drift_by_decisions evict_by_drift
  on_drift_overflow now threshold_count threshold_age_ms signal_patterns memory =
      let report =
        evict_by_drift stable_hash memory.buffer threshold_count threshold_age_ms signal_patterns
          now in
      remove_drift_by_decisions report.evicted_drift_events memory.buffer memory
