-- ===== src/Scrollback.antt =====
-- The package scrollback: the bounded record of a session's output.
pub mod Text
pub mod Boundary
pub mod Backend
pub mod Store
mod Tests
