-- ===== src/Memory.antt =====
-- The agent's memory (src/agent/memory).
pub mod Records
pub mod Eviction
pub mod Lifecycle
pub mod SubgoalMemory
pub mod Orchestrator
pub mod DriftMemory
