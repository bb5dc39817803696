-- ===== src/Plan.antt =====
-- apps/plan_executor: execution plans, whose steps are submitted to the platform one after the other.
pub mod State
pub mod Validate
pub mod Store
pub mod Bindings
pub mod Executor
pub mod Frontier
pub mod Orderly
pub mod Changes
pub mod Cancels
pub mod Advance
pub mod Created
pub mod Resolved
pub mod Service
pub mod Guarantees
mod Tests
