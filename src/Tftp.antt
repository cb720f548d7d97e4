-- ===== src/Tftp.antt =====
-- tftp/tftp-server.cpp: the sessions and the server.
pub mod Protocol
pub mod Streams
pub mod Reader
pub mod Strings
pub mod Writer
pub mod Serves
pub mod Joined
pub mod Relay
pub mod Server
pub mod Changes
pub mod Limits
pub mod Requested
pub mod Table
pub mod Alone
pub mod Repeats
pub mod Copies
pub mod Client
mod Tests
