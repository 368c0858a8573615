-- ===== src/Memory/Eviction.antt =====
-- The eviction rules of the memory stores (src/agent/memory/eviction). `stable_hash`, which hashes
-- the fields of an event with SHA-256, is a parameter of the rules that use it.
pub mod Least
pub mod Ancestors
pub mod Drift
pub mod Completion
use vai_core.Prelude.{
  ℕ, zero, suc, ◌-◌, Bool, true, false, not, ◌&&◌, ◌||◌, Option, none, some, List, [], ◌∷◌, ◌++◌,
  map, String, ◌==◌, ltb, leb, eqb, length, elem, keep, all, if◌then◌else◌,
}
use vai_core.Prelude.Dict.{Dict, get, put, values}
use vai_core.Prelude.Texts.{text_lt}
use vai_core.Prelude.Sorting.{sorted, take}
use vai_core.Memory.Records.{
  SegmentMemoryRecord, SubgoalMemoryRecord, PlanMemoryRecord, DriftEvent, SummaryMetadata,
}

pub record AccessRecord : Type 0 where
  pub record_id : String
  pub record_type : String
  pub access_count : ℕ
  pub last_accessed_at : ℕ

-- An id in a decision: a record's, or the one that `_drift_event_id` makes of a position and a hash.
pub data EvictedId : Type 0 where
  record_key : String → EvictedId
  drift_event_id : (ordinal : ℕ) (hash : String) → EvictedId

-- `now - timestamp`, which is negative for an event that is ahead of `now`.
pub data Age : Type 0 where
  behind ahead : ℕ → Age

pub data EvictionReason : Type 0 where
  lru lfu drift subgoal_complete summary_replacement : EvictionReason

pub data EvictionDetails : Type 0 where
  by_access : (last_accessed_at access_count : ℕ) → EvictionDetails
  by_drift : (timestamp : ℕ) (subgoal_id signal_type : String) (age_ms : Age) → EvictionDetails
  by_subgoal : (subgoal_id : String) → EvictionDetails
  by_segment : (segment_id : Option String) (subgoal_id : String) → EvictionDetails
  by_summary : (summary_fingerprint : String) → EvictionDetails

pub record EvictionDecision : Type 0 where
  pub record_id : EvictedId
  pub record_type : String
  pub reason : EvictionReason
  pub evicted_at : ℕ
  pub details : EvictionDetails

pub record EvictionReport : Type 0 where
  pub decisions : List EvictionDecision
  pub eviction_count : ℕ
  pub generated_at : ℕ
  pub reason : EvictionReason

pub record DriftEvictionReport : Type 0 where
  pub evicted_drift_events : List EvictionDecision
  pub preserved_segment_id : Option String
  pub generated_at : ℕ

pub record CompletionEvictionSummary : Type 0 where
  pub subgoal_id : String
  pub evicted_segments : List EvictionDecision
  pub evicted_drift_events : List EvictionDecision
  pub evicted_plans : List EvictionDecision
  pub generated_at : ℕ

-- `EvictionReport(decisions=…, eviction_count=len(decisions), …)`, which `_empty_report` makes of no decision.
abbrev pub report : (now : ℕ) → EvictionReason → List EvictionDecision → EvictionReport
report now reason decisions = record {
  decisions = decisions;
  eviction_count = length decisions;
  generated_at = now;
  reason = reason;
}

-- The texts of a list that are there and not empty: `if x.parent_id`
abbrev pub given : Option String → List String
given none = []
given (some p) = if p == "" then [] else p ∷ []

unfoldable pub compute_segment_refs : List SegmentMemoryRecord → List PlanMemoryRecord → List String
compute_segment_refs [] [] = []
compute_segment_refs [] (p ∷ plans) = p.segments ++ compute_segment_refs [] plans
compute_segment_refs (s ∷ segments) plans = given s.parent_id ++ compute_segment_refs segments plans

unfoldable pub compute_subgoal_refs : List SubgoalMemoryRecord → List String
compute_subgoal_refs [] = []
compute_subgoal_refs (s ∷ subgoals) = given s.parent_id ++ compute_subgoal_refs subgoals

-- `(x.last_accessed_at, x.record_id) < (y.last_accessed_at, y.record_id)`
unfoldable pub less_recent : AccessRecord → AccessRecord → Bool
less_recent x y =
    if ltb x.last_accessed_at y.last_accessed_at
    then true
    else if ltb y.last_accessed_at x.last_accessed_at
    then false
    else text_lt x.record_id y.record_id

-- The same, with `access_count` first.
unfoldable pub less_frequent : AccessRecord → AccessRecord → Bool
unfolding less_recent
less_frequent x y =
    if ltb x.access_count y.access_count
    then true
    else if ltb y.access_count x.access_count
    then false
    else less_recent x y

abbrev pub unprotected : List String → String × AccessRecord → Bool
unprotected protected_ids entry = not (elem entry.0 protected_ids)

-- `[ar for rec_id, ar in access_log.items() if rec_id not in protected_ids]`
unfoldable pub candidates : Dict AccessRecord → List String → List AccessRecord
unfolding keep elem
candidates access_log protected_ids =
    map (λ entry. entry.1) (keep (unprotected protected_ids) access_log)

abbrev pub access_decision : EvictionReason → (now : ℕ) → AccessRecord → EvictionDecision
access_decision reason now ar = record {
  record_id = record_key ar.record_id;
  record_type = ar.record_type;
  reason = reason;
  evicted_at = now;
  details = by_access ar.last_accessed_at ar.access_count;
}

abbrev pub evict_first :
    (AccessRecord → AccessRecord → Bool)
    → EvictionReason
    → Dict AccessRecord
    → List String
    → (n now : ℕ) → EvictionReport
evict_first lt reason access_log protected_ids zero now = report now reason []
evict_first lt reason access_log protected_ids (suc n) now = report now reason (
    map (access_decision reason now)
      (take (suc n) (sorted lt (candidates access_log protected_ids))))

unfoldable pub evict_lru : Dict AccessRecord → List String → (n now : ℕ) → EvictionReport
unfolding less_recent candidates sorted take
evict_lru = evict_first less_recent lru

unfoldable pub evict_lfu : Dict AccessRecord → List String → (n now : ℕ) → EvictionReport
unfolding less_frequent candidates sorted take
evict_lfu = evict_first less_frequent lfu

-- `SummarisationRules.is_stale`
unfoldable pub is_stale :
    SummaryMetadata → (current_count : ℕ) → (current_fingerprint : String) → Bool
is_stale meta current_count current_fingerprint =
    not (eqb meta.source_count current_count)
    || not (meta.source_fingerprint == current_fingerprint)

abbrev pub segment_decision :
    EvictionReason → (now : ℕ) → EvictionDetails → SegmentMemoryRecord → EvictionDecision
segment_decision reason now details s = record {
  record_id = record_key s.segment_id;
  record_type = "segment";
  reason = reason;
  evicted_at = now;
  details = details;
}

unfoldable pub evict_by_summary_replacement :
    List SegmentMemoryRecord
    → SummaryMetadata
    → (current_fingerprint : String) → List String
    → (now : ℕ) → EvictionReport
unfolding is_stale keep elem
evict_by_summary_replacement records summary_meta current_fingerprint protected_ids now =
    if is_stale summary_meta (length records) current_fingerprint
    then report now summary_replacement []
    else report now summary_replacement (
        map (segment_decision summary_replacement now (by_summary current_fingerprint))
          (keep (λ r. not (elem r.segment_id protected_ids)) records))
