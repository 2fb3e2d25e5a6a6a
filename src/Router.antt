-- ===== src/Router.antt =====
-- server/internal/router: the registry of connected buddies and pending thread waiters.
pub mod Registry
