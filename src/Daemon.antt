-- ===== src/Daemon.antt =====
-- The package daemon.
pub mod Frame
pub mod Closed
pub mod Da
pub mod Lifecycle
pub mod Terminal
pub mod Attach
pub mod Session
pub mod Retention
pub mod Names
pub mod Protocol
