-- ===== src/Store.antt =====
-- server/internal/store: the four tables and the statements that read and write them.
pub mod Db
pub mod Messages
pub mod Threads
pub mod Buddies
pub mod Migrate
pub mod History
pub mod Filter
