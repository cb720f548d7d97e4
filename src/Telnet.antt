-- ===== src/Telnet.antt =====
-- telnet/server/: the session of the Telnet server.
pub mod Session
pub mod History
pub mod Arrows
pub mod Receive
pub mod Reached
pub mod Login
pub mod Edits
pub mod Options
pub mod Server
pub mod Served
mod Tests
