-- ===== src/Provenance.antt =====
-- core/provenance/src/openroad_platform_provenance/index.py: the evidence index.
pub mod Runs
mod Tests
