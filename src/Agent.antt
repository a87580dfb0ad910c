-- ===== src/Agent.antt =====
-- The package agent.
pub mod Governance
pub mod Lifecycle
