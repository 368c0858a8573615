-- ===== src/Memory/Records.antt =====
-- The records of the memory stores (src/agent/memory/*_memory_types.py). JSON values are texts.
use vai_core.Prelude.{ℕ, Option, List, String}

-- `BehaviouralSignal` and JSON objects are not looked into: their texts stand for them.
pub record SegmentMemoryRecord : Type 0 where
  pub segment_id : String
  pub parent_id : Option String
  pub subgoal_id : String
  pub state : Option String
  pub content : List String
  pub created_at : String
  pub context : String
  pub metadata : String
  pub skills : List String
  pub last_output : Option String
  pub previous_output : Option String
  pub behavioural_delta : Option String
  pub behavioural_signals : List String
  pub error : Option String

pub record SubgoalMemoryRecord : Type 0 where
  pub subgoal_id : String
  pub parent_id : Option String
  pub state : String
  pub goal : String
  pub context : String
  pub metadata : String
  pub created_at : ℕ

pub record PlanMemoryRecord : Type 0 where
  pub plan_id : String
  pub subgoal_id : String
  pub segments : List String
  pub created_at : String
  pub metadata : String
  pub intent : String
  pub targetskillid : String
  pub arguments : String
  pub reasoning_summary : String

-- `confidence` is a text, since no rule computes with it.
pub record DriftEvent : Type 0 where
  pub timestamp : ℕ
  pub subgoal_id : String
  pub segment_id : Option String
  pub step_id : Option String
  pub signal_type : String
  pub confidence : String
  pub details : String

pub record SummaryMetadata : Type 0 where
  pub generated_at : ℕ
  pub source_count : ℕ
  pub source_fingerprint : String
