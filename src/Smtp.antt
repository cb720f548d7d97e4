-- ===== src/Smtp.antt =====
-- smtp/server/: the session of the SMTP server.
pub mod Session
pub mod Commands
pub mod Message
pub mod Receive
pub mod WellFormed
pub mod Kept
pub mod Reached
pub mod Delivers
pub mod Stays
pub mod Outcomes
pub mod Envelope
pub mod Lines
pub mod Stalls
pub mod Server
pub mod Interleaved
pub mod Served
mod Tests
