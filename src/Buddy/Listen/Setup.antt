-- ===== src/Buddy/Listen/Setup.antt =====
-- A `setup` of buddy-cli/internal/cli/setup.go, and a `listen` of listen.go after it.
use clawgard.Prelude.{Comparable-String}
