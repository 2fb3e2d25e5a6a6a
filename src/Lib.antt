-- ===== src/Lib.antt =====
-- clawgard: a relay that lets people (hatchlings) put questions to other people's agents (buddies).
--
-- A hatchling opens a thread with a question over HTTP; the server stores the thread and the message in
-- PostgreSQL and hands a frame to the buddy's websocket; the buddy's client runs a hook and sends
-- an answer, a request for clarification or a close; the hatchling polls. At most 3 turns are
-- allowed, and a sweeper closes idle threads.
--
-- Parts and files:
--   Prelude, Assoc, Exec     shared notation, Go's maps, and code that returns early with a state
--   Exec/Respects            actions as scripts of atomic steps, and pools of them under a scheduler
--   Router/Registry          server/internal/router/registry.go
--   Store/Db                 the tables of server/internal/store/migrations and one SQL statement
--   Store/Threads, /Filter   server/internal/store/threads.go
--   Store/Messages           server/internal/store/messages.go
--   Store/Buddies            server/internal/store/buddies.go
--   Store/Migrate            server/internal/store/migrate.go
--   Store/History            the history of the rows and the consistency of the tables
--   Sweeper                  server/internal/sweeper/sweeper.go
--   Api/Http, /World         responses, and the state that a handler works on
--   Api/Hatchling, /Acl      server/internal/api/hatchling.go
--   Api/BuddyWs              server/internal/api/buddy_ws.go, server/internal/auth/apikey.go
--   Api/Admin                server/internal/api/admin.go
--   Api/Device               server/internal/api/oidc_device.go
--   Api/Session              server/internal/api/session.go
--   Api/Middleware           server/internal/api/middleware.go, server/internal/auth/oidc.go
--   Api/Me, /AuthCallback    server/internal/api/me.go and auth_callback.go
--   Api/Health               server/internal/api/health.go
--   Api/Safety               all requests together, with their steps in any order
--   Server                   server/internal/server/server.go, web/embed.go, cmd/clawgard-server
--   Config                   server/internal/config/config.go
--   Buddy                    buddy-cli/internal: client, cli, hook, config and auth
--   Tests                    the theorems at concrete inputs
--
-- How the code is read. A function or method has the code's name in snake_case; a handler is an
-- action on a World (database, registry, and the write channel of each connection) that ends in a
-- response; `return` after an error is an early end that keeps what was written. A row is a record,
-- a table a list in insertion order, a key the number of its UUID, a time a number of nanoseconds.
-- Every SQL statement is atomic; a schedule says, for each coming one, how much time passes before
-- it and whether it runs, fails, or runs and loses its answer. An empty schedule means that they all run
-- at once. Rows that ORDER BY does not tell apart stand in the order of the table, which PostgreSQL
-- does not promise. A long poll is given the events that it meets. Loops are structural recursion;
-- the only fuel is itoa's 16 bytes of buffer, enough below 10^16.
--
-- How requests interleave. That a handler respects a relation on worlds is kept as a script:
-- its statements, what it does to the registry under its lock, and each frame that it puts into
-- a channel are atomic steps, and what it does between them depends on their results alone.
-- `perform` of the script is the handler, and a list of indices says which request in flight
-- takes its next step (Exec/Respects/Pool, Api/Safety/Interleaved). The goroutines of the
-- buddy's session are a step relation instead (Buddy/Session), since its selects choose among
-- ready cases.
--
-- Arguments that stand for code elsewhere: github.com/google/uuid (Uuid), bcrypt and crypto/rand
-- (Bcrypt, Keygen), jwt (Jwt), JSON, base64 and HMAC (Codec), the identity provider
-- (TokenEndpoint), the hook's process, the environment (Host), the collation of a database.
--
-- Not modelled: the writer goroutine of the server's connections and its pings, listeners and their
-- shutdown, TLS, prompts, the access lists of Windows, and the printing of the commands: all of them
-- are calls of other code without a decision of their own. A router of github.com/go-chi/chi is the
-- list of what is registered with it.
pub mod Prelude
pub mod Assoc
pub mod Exec
pub mod Router
pub mod Store
pub mod Api
pub mod Sweeper
pub mod Config
pub mod Server
pub mod Buddy
pub mod Tests
