-- ===== src/Client.antt =====
-- The package bgx, the client side.
pub mod CtrlKey
pub mod Dirs
pub mod Sessions
pub mod Start
pub mod Shutdown
pub mod View
pub mod Models
pub mod Input
