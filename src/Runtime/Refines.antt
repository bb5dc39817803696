-- ===== src/Runtime/Refines.antt =====
-- The operations of core/runtime/src/openroad_platform_runtime/store.py are sequences of steps.
pub mod Runs
pub mod Submit
pub mod Attempts
pub mod Leases
pub mod Retry
pub mod Reclaim
