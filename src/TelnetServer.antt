-- ===== src/TelnetServer.antt =====
-- telnet-server/: the older Telnet server, with the callbacks of its main.cpp.
pub mod Client
pub mod Server
pub mod Logins
pub mod Reads
pub mod Identifiers
mod Tests
