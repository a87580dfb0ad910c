-- ===== src/Kuber.antt =====
-- The package kuber.
pub mod Object
pub mod Keys
pub mod Resources
pub mod Parents
pub mod Mask
pub mod Handlers
pub mod Kube
