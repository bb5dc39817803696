-- ===== src/Contracts.antt =====
-- The platform's contracts: the vocabulary that every component shares.
pub mod Status
pub mod Names
pub mod Resources
pub mod Input
pub mod Task
pub mod Plugin
pub mod Artifact
mod Tests
