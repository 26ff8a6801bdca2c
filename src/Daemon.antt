-- ===== src/Daemon.antt =====
-- The daemon on the host, daemon/src.
pub mod CmdParse
pub mod Client
pub mod Commands
pub mod Library
pub mod Serial
pub mod Sharing
pub mod Main
mod Tests
