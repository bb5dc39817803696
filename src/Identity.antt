-- ===== src/Identity.antt =====
-- core/identity/src/openroad_platform_identity/auth.py: users, sessions, ownership and allowances.
pub mod State
pub mod Names
pub mod Accounts
pub mod Owners
pub mod Allowance
pub mod Requests
pub mod Changes
pub mod Refines
pub mod Kept
pub mod Spending
pub mod Sessions
pub mod Passwords
pub mod Registration
mod Tests
