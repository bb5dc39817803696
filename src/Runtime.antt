-- ===== src/Runtime.antt =====
-- core/runtime: the durable store of runs, stages and attempts, and what it guarantees.
pub mod State
pub mod Result
pub mod Runs
pub mod Submit
pub mod Attempts
pub mod Leases
pub mod Retry
pub mod Reclaim
pub mod Queries
pub mod Waiting
pub mod Admission
pub mod Step
pub mod Sync
pub mod Budget
pub mod Evidence
pub mod Numbering
pub mod Keys
pub mod Lifecycle
pub mod Refines
pub mod Calls
pub mod Execution
pub mod Tests
