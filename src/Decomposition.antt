-- ===== src/Decomposition.antt =====
-- Task decomposition (src/agent/decomposition).
pub mod Dag
