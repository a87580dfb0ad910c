-- ===== src/Entities.antt =====
-- The package entities.
pub mod Deltas
pub mod Watcher
