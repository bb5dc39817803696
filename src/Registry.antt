-- ===== src/Registry.antt =====
-- core/registry/src/openroad_platform_registry/registry.py: which plugins there are, and which may run.
pub mod Records
pub mod Loading
pub mod Lookup
pub mod Reviewed
pub mod Exact
mod Tests
