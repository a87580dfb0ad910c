-- ===== src/Gateway.antt =====
-- The package gateway.
pub mod Governance
