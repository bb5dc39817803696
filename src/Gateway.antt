-- ===== src/Gateway.antt =====
-- gateway/src/openroad_platform_gateway/kernel_api.py: who may call what.
pub mod Access
pub mod Privacy
mod Tests
