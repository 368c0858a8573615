-- ===== src/Jobs.antt =====
-- The job component of the platform runtime (src/platform/runtime): its lifecycle states, its
-- record, and the control plane that owns every change of state.
pub mod State
pub mod Job
pub mod Action
pub mod ControlPlane
