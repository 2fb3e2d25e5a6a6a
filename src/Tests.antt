-- ===== src/Tests.antt =====
-- The theorems at concrete inputs.
mod Fixtures
pub mod Server
pub mod Rows
pub mod Channels
pub mod Client
pub mod Logins
pub mod Flight
pub mod Writer
pub mod Deploy
