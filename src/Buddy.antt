-- ===== src/Buddy.antt =====
-- buddy-cli/internal: the command line client that a buddy runs.
pub mod Backoff
pub mod Hook
pub mod Supervisor
pub mod Session
pub mod KeyFile
pub mod Listen
pub mod Config
