-- ===== src/Auditor.antt =====
-- The package auditor and its child opa-auditor.
pub mod Cache
pub mod Opa
pub mod Events
