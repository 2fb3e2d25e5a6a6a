-- ===== src/Api.antt =====
-- server/internal/api: the HTTP and WebSocket handlers over the store and the registry.
pub mod Http
pub mod Health
pub mod World
pub mod Acl
pub mod Hatchling
pub mod BuddyWs
pub mod Admin
pub mod Device
pub mod Session
pub mod Middleware
pub mod Me
pub mod AuthCallback
pub mod Safety
