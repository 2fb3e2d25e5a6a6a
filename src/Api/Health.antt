-- ===== src/Api/Health.antt =====
-- The probes of server/internal/api/health.go: status and text. Whether the database answers the ping
-- within two seconds is an argument.
use clawgard.Prelude.{ℕ, String, Bool, if◌then◌else◌}

unfoldable pub live : ℕ × String
live = (200, "ok")

unfoldable pub ready : Bool → ℕ × String
ready answers = if answers then (200, "ready") else (503, "db unavailable")
