-- ===== src/Ftp.antt =====
-- ftp/server/: commands, login and transfers of the FTP server.
pub mod Commands
pub mod Handlers
pub mod Lines
pub mod Transfers
pub mod Login
pub mod Paths
pub mod Files
pub mod Connections
pub mod Execute
pub mod Addresses
pub mod Keeps
pub mod Reached
pub mod Users
pub mod Anonymous
pub mod Acceptor
pub mod Stuck
pub mod Turns
pub mod Server
pub mod Threads
pub mod Served
pub mod OneLine
pub mod Visits
mod Tests
mod SessionTests
