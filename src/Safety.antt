-- ===== src/Safety.antt =====
-- The safety layer (src/platform/runtime/safety).
pub mod DegradedMode
pub mod Operations
