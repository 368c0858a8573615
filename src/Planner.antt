-- ===== src/Planner.antt =====
-- The planner's list of todos (src/capabilities/planner).
pub mod Todo
