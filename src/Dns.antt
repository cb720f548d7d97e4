-- ===== src/Dns.antt =====
-- dns/: messages, names, queries, responses and the resolver.
pub mod Header
pub mod Flags
pub mod FieldBits
pub mod Fields
pub mod Names
pub mod NameLaws
pub mod Query
pub mod QueryLaws
pub mod Response
pub mod ResponseLaws
pub mod Sections
pub mod RoundTrip
pub mod Resolver
pub mod Client
pub mod Answers
pub mod Resolves
pub mod Server
pub mod Stops
pub mod Records
pub mod Reverse
mod Tests
mod ServerTests
