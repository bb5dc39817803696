-- ===== src/Custody.antt =====
-- The custody of files: the object store of core/runtime/src/openroad_platform_runtime/store.py with
-- the tables of artifacts, uploads, staged inputs and metrics, and the staging of a task's inputs in
-- core/runtime/src/openroad_platform_runtime/runtime.py.
pub mod Objects
pub mod Artifacts
pub mod Inputs
pub mod Metrics
pub mod Freezing
pub mod Staging
pub mod Later
pub mod Registration
pub mod Registered
pub mod Steps
pub mod Kept
pub mod Guarantees
pub mod Submitted
pub mod Frozen
pub mod Submission
mod Tests
pub mod Reports
