-- ===== src/Retry.antt =====
-- The platform's retry layer (src/platform/runtime/retry): policy, poison detection, wrapper.
pub mod Policy
pub mod Wrapper
