-- ===== src/Tests/Memories.antt =====
-- The theorems on the agent's memory, at small stores.
use vai_core.Prelude.{
  ℕ, true, false, none, some, Option, List, [], ◌∷◌, String, ◌≡◌, ◌↔◌, refl, elem, length, ◌≤◌,
  arith,
}
use mathlib.Core.List.{Mem, mem-cons, mem-cons_self}
use mathlib.Core.Logic.Or
use vai_core.Prelude.Dict.{Dict}
use vai_core.Memory.Records.{SegmentMemoryRecord, DriftEvent}
use vai_core.Memory.Eviction.{
  AccessRecord, lru, lfu, evict_lru, evict_lfu, CompletionEvictionSummary,
}
use vai_core.Memory.Eviction.Least.{Older, Rarer, Evicts, evict_lru-Evicts, evict_lfu-Evicts}
use vai_core.Memory.Eviction.Ancestors.{ancestor_closure}
use vai_core.Memory.Eviction.Ancestors.Least.{Climbs, ancestor_closure-Climbs}
use vai_core.Memory.Eviction.Drift.{evict_by_drift}
use vai_core.Memory.Eviction.Drift.Bounds.{Preserves, evict_by_drift-Preserves}
use vai_core.Memory.Eviction.Completion.{index, evict_on_subgoal_completion}
use vai_core.Memory.Eviction.Completion.Chain.{
  evicted_ids, evict_on_subgoal_completion_returns, evict_on_subgoal_completion_chain,
}
use vai_core.Memory.Lifecycle.{created, validated, is_allowed, Leads, is_allowed-Leads}
use vai_core.Memory.DriftMemory.{DriftMemory, new, newest, record_event, load_snapshot, IsBounded}
use vai_core.Memory.Orchestrator.{on_drift_overflow}
use vai_core.Memory.Orchestrator.Overflow.{on_drift_overflow_bound}
use vai_core.Memory.DriftMemory.Window.{
  record_all, record_all-newest, load_snapshot-buffer, made, next, records, Reachable-IsBounded,
}

abbrev log : Dict AccessRecord
log =
    (
      "s1",
      record { record_id = "s1"; record_type = "segment"; access_count = 4; last_accessed_at = 10 },
    )
    ∷ (
      "s2",
      record { record_id = "s2"; record_type = "segment"; access_count = 1; last_accessed_at = 30 },
    )
    ∷ (
      "s3",
      record { record_id = "s3"; record_type = "segment"; access_count = 2; last_accessed_at = 20 },
    )
    ∷ []

evict_lru-Evicts_example : Evicts Older lru log ("s1" ∷ []) 1 99 (evict_lru log ("s1" ∷ []) 1 99)
evict_lru-Evicts_example = evict_lru-Evicts log ("s1" ∷ []) 1 99

evict_lfu-Evicts_example : Evicts Rarer lfu log ("s1" ∷ []) 1 99 (evict_lfu log ("s1" ∷ []) 1 99)
evict_lfu-Evicts_example = evict_lfu-Evicts log ("s1" ∷ []) 1 99

abbrev segment : (id : String) → Option String → (subgoal : String) → SegmentMemoryRecord
segment id parent subgoal = record {
  segment_id = id;
  parent_id = parent;
  subgoal_id = subgoal;
  state = none;
  content = [];
  created_at = "2026";
  context = "{}";
  metadata = "{}";
  skills = [];
  last_output = none;
  previous_output = none;
  behavioural_delta = none;
  behavioural_signals = [];
  error = none;
}

-- The last segment belongs to another subgoal and continues the second of the first subgoal.
abbrev segments : List SegmentMemoryRecord
segments =
    segment "a" none "g"
    ∷ segment "b" (some "a") "g"
    ∷ segment "c" (some "b") "g"
    ∷ segment "d" (some "b") "h"
    ∷ []

ancestor_closure-Climbs_example :
    Climbs (index segments []) (ancestor_closure ("b" ∷ []) (index segments [])) ("b" ∷ [])
ancestor_closure-Climbs_example = ancestor_closure-Climbs ("b" ∷ []) (index segments [])

abbrev event : ℕ → String → DriftEvent
event time signal = record {
  timestamp = time;
  subgoal_id = "g";
  segment_id = some "a";
  step_id = none;
  signal_type = signal;
  confidence = "0.5";
  details = "{}";
}

abbrev events : List DriftEvent
events = event 30 "WRONG_OUTPUT" ∷ event 10 "WRONG_CAPABILITY" ∷ event 20 "WRONG_OUTPUT" ∷ []

abbrev hash : DriftEvent → String
hash e = e.signal_type

evict_by_drift-Preserves_example :
    Preserves hash events 2 15
      ("WRONG_CAPABILITY" ∷ [])
      40
      (evict_by_drift hash events 2 15 ("WRONG_CAPABILITY" ∷ []) 40)
evict_by_drift-Preserves_example =
    evict_by_drift-Preserves hash events 2 15 ("WRONG_CAPABILITY" ∷ []) 40 (λ e. absurd (cc e))

evict_on_subgoal_completion_returns_example :
    (summary : CompletionEvictionSummary) × (evict_on_subgoal_completion hash "g" segments events []
        40 true
      ≡ some summary)
evict_on_subgoal_completion_returns_example =
    evict_on_subgoal_completion_returns hash "g" segments events [] 40 true

abbrev summary_of : Option CompletionEvictionSummary → CompletionEvictionSummary
summary_of none = record {
  subgoal_id = "";
  evicted_segments = [];
  evicted_drift_events = [];
  evicted_plans = [];
  generated_at = 0;
}
summary_of (some s) = s

second : Mem (segment "b" (some "a") "g") segments
second = mem-cons.1 (Or.inr mem-cons_self)

-- Only the third segment is evicted: the second has a child outside, and the first is its parent.
evict_on_subgoal_completion_chain_example :
    elem "a" (
      evicted_ids
        (summary_of
          (evict_on_subgoal_completion hash "g" segments events [] 40 true)).evicted_segments)
    ≡ false
unfolding evict_on_subgoal_completion elem
evict_on_subgoal_completion_chain_example =
    evict_on_subgoal_completion_chain hash "g" segments events [] 40 true
      (refl, (refl, (refl, (refl, tt))))
      (summary_of (evict_on_subgoal_completion hash "g" segments events [] 40 true)) refl
      (segment "b" (some "a") "g") second refl "a" refl

is_allowed-Leads_example : (is_allowed created validated ≡ true) ↔ Leads created validated
is_allowed-Leads_example = is_allowed-Leads created validated

abbrev buffered : DriftMemory
buffered = record {
  capacity = 2;
  buffer = event 10 "WRONG_CAPABILITY" ∷ event 20 "WRONG_OUTPUT" ∷ [];
}

record_all-newest_example :
    (record_all events (record { capacity = 2; buffer = [] })).buffer
    ≡ event 10 "WRONG_CAPABILITY" ∷ event 20 "WRONG_OUTPUT" ∷ []
unfolding newest
record_all-newest_example = record_all-newest 2 events

load_snapshot-buffer_example :
    (load_snapshot buffered.buffer (record { capacity = 2; buffer = [] })).buffer ≡ buffered.buffer
load_snapshot-buffer_example =
    load_snapshot-buffer buffered (record { capacity = 2; buffer = [] })
      (record { positive = omega arith; within = omega arith }) refl

Reachable-IsBounded_example :
    IsBounded (record_event (event 10 "WRONG_CAPABILITY") (record { capacity = 2; buffer = [] }))
unfolding new
Reachable-IsBounded_example =
    Reachable-IsBounded
      (record_event (event 10 "WRONG_CAPABILITY") (record { capacity = 2; buffer = [] }))
      (next (made 2 refl) (records (event 10 "WRONG_CAPABILITY")))

abbrev overflowing : DriftMemory
overflowing = record { capacity = 3; buffer = events }

on_drift_overflow_bound_example : length (on_drift_overflow hash 40 2 0 [] overflowing).buffer ≤ 2
on_drift_overflow_bound_example = on_drift_overflow_bound hash 40 1 overflowing

-- By pattern, the rule decides on the event at 20, and the orchestrator removes nothing: the decision
-- numbers the event among the evicted ones, where it is the first, and the orchestrator among all.
decided_by_pattern :
    length (evict_by_drift hash events 0 0 ("WRONG_OUTPUT" ∷ []) 40).evicted_drift_events ≡ 1
unfolding evict_by_drift
decided_by_pattern = refl

not_removed_by_pattern :
    (on_drift_overflow hash 40 0 0 ("WRONG_OUTPUT" ∷ []) overflowing).buffer ≡ events
unfolding on_drift_overflow
not_removed_by_pattern = refl
