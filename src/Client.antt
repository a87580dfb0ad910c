-- ===== src/Client.antt =====
-- The package client.
pub mod Queue
pub mod PipeStore
pub mod Pipe
pub mod Session
pub mod Connection
pub mod Logging
