-- ===== src/Scheduling.antt =====
-- Deterministic job selection and the dependencies between jobs
-- (src/platform/runtime/scheduling).
pub mod Policy
pub mod Dependency
