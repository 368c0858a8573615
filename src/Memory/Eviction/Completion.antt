-- ===== src/Memory/Eviction/Completion.antt =====
-- `EvictionRules.evict_on_subgoal_completion`
pub mod Index
pub mod Chain
use vai_core.Prelude.{
  ℕ, Bool, true, false, not, ◌&&◌, ◌||◌, Option, none, some, List, [], ◌∷◌, ◌++◌, map, String, ◌==◌,
  elem, keep, all, if◌then◌else◌,
}
use vai_core.Prelude.Dict.{Dict, put}
use vai_core.Prelude.Sorting.{sorted}
use vai_core.Memory.Records.{SegmentMemoryRecord, PlanMemoryRecord, DriftEvent}
use vai_core.Memory.Eviction.{
  EvictionDecision, CompletionEvictionSummary, record_key, drift_event_id, subgoal_complete,
  by_subgoal, by_segment, given, segment_decision,
}
use vai_core.Memory.Eviction.Drift.{event_before, enumerate}
use vai_core.Memory.Eviction.Ancestors.{ancestor_closure}

abbrev pub segment_ids : List SegmentMemoryRecord → List String
segment_ids segments = map (λ s. s.segment_id) segments

unfoldable pub target_segments :
    (subgoal_id : String) → List SegmentMemoryRecord → List SegmentMemoryRecord
unfolding keep
target_segments subgoal_id segments = keep (λ s. s.subgoal_id == subgoal_id) segments

-- The texts of `refs` that are targets, if what refers to them belongs to another subgoal.
unfoldable pub foreign :
    (subgoal_id : String) (target_ids : List String) (owner : String) (refs : List String)
    → List String
unfolding keep elem
foreign subgoal_id target_ids owner refs =
    keep (λ r. not (owner == subgoal_id) && elem r target_ids) refs

unfoldable pub external_parent_refs :
    (subgoal_id : String) (target_ids : List String) → List SegmentMemoryRecord → List String
unfolding foreign
external_parent_refs subgoal_id target_ids [] = []
external_parent_refs subgoal_id target_ids (s ∷ segments) =
    foreign subgoal_id target_ids s.subgoal_id (given s.parent_id)
    ++ external_parent_refs subgoal_id target_ids segments

unfoldable pub plan_refs :
    (subgoal_id : String) (target_ids : List String) → List PlanMemoryRecord → List String
unfolding foreign
plan_refs subgoal_id target_ids [] = []
plan_refs subgoal_id target_ids (p ∷ plans) =
    foreign subgoal_id target_ids p.subgoal_id p.segments ++ plan_refs subgoal_id target_ids plans

-- `{s.segment_id: s for s in segments}`, written into a dict
unfoldable pub index :
    List SegmentMemoryRecord → Dict SegmentMemoryRecord → Dict SegmentMemoryRecord
unfolding put
index [] d = d
index (s ∷ segments) d = index segments (put d s.segment_id s)

unfoldable pub retained_closure :
    (subgoal_id : String) → List SegmentMemoryRecord → List PlanMemoryRecord → Option (List String)
unfolding target_segments external_parent_refs plan_refs index ancestor_closure
retained_closure subgoal_id segments plans =
    let target_ids = segment_ids (target_segments subgoal_id segments) in
    ancestor_closure
      (external_parent_refs subgoal_id target_ids segments ++ plan_refs subgoal_id target_ids plans)
      (index (target_segments subgoal_id segments) [])

unfoldable pub safe_to_evict :
    (retained : List String) → List SegmentMemoryRecord → List SegmentMemoryRecord
unfolding keep elem
safe_to_evict retained segments = keep (λ s. not (elem s.segment_id retained)) segments

abbrev pub in_ids : List String → Option String → Bool
in_ids ids none = false
in_ids ids (some id) = elem id ids

abbrev pub no_segment : Option String → Bool
no_segment none = true
no_segment (some id) = false

unfoldable pub evictable_drift :
    (subgoal_id : String) (safe_ids : List String) → List DriftEvent → List DriftEvent
unfolding keep elem sorted event_before
evictable_drift subgoal_id safe_ids drift_events = sorted event_before (
    keep
      (λ e. in_ids safe_ids e.segment_id || (e.subgoal_id == subgoal_id && no_segment e.segment_id))
      drift_events)

unfoldable pub evictable_plans :
    (subgoal_id : String) (safe_ids : List String) → List PlanMemoryRecord → List PlanMemoryRecord
unfolding keep elem all
evictable_plans subgoal_id safe_ids plans =
    keep (λ p. p.subgoal_id == subgoal_id && all (λ seg_id. elem seg_id safe_ids) p.segments) plans

abbrev pub plan_decision : (now : ℕ) (subgoal_id : String) → PlanMemoryRecord → EvictionDecision
plan_decision now subgoal_id p = record {
  record_id = record_key p.plan_id;
  record_type = "plan";
  reason = subgoal_complete;
  evicted_at = now;
  details = by_subgoal subgoal_id;
}

module _ (stable_hash : DriftEvent → String) where
  abbrev pub event_decision : (now i : ℕ) → DriftEvent → EvictionDecision
  event_decision now i e = record {
    record_id = drift_event_id i (stable_hash e);
    record_type = "drift_event";
    reason = subgoal_complete;
    evicted_at = now;
    details = by_segment e.segment_id e.subgoal_id;
  }

  -- The summary, once it is known what is retained.
  abbrev pub completion_summary :
      (subgoal_id : String)
      → List SegmentMemoryRecord
      → List DriftEvent
      → List PlanMemoryRecord
      → (now : ℕ) (evict_plan : Bool) → Option (List String)
      → Option CompletionEvictionSummary
  completion_summary subgoal_id segments drift_events plans now evict_plan none = none
  completion_summary subgoal_id segments drift_events plans now evict_plan (some retained) =
      let safe = safe_to_evict retained (target_segments subgoal_id segments) in
      some record {
        subgoal_id = subgoal_id;
        evicted_segments = map (segment_decision subgoal_complete now (by_subgoal subgoal_id)) safe;
        evicted_drift_events =
            enumerate stable_hash (event_decision now) 0
              (evictable_drift subgoal_id (segment_ids safe) drift_events);
        evicted_plans =
            if evict_plan
            then map (plan_decision now subgoal_id)
                (evictable_plans subgoal_id (segment_ids safe) plans)
            else [];
        generated_at = now;
      }

  -- `none` if the search for the ancestors were cut off.
  unfoldable pub evict_on_subgoal_completion :
      (subgoal_id : String)
      → List SegmentMemoryRecord
      → List DriftEvent
      → List PlanMemoryRecord
      → (now : ℕ) (evict_plan : Bool) → Option CompletionEvictionSummary
  unfolding retained_closure safe_to_evict evictable_drift evictable_plans
  evict_on_subgoal_completion subgoal_id segments drift_events plans now evict_plan =
      completion_summary subgoal_id segments drift_events plans now evict_plan
        (retained_closure subgoal_id segments plans)
