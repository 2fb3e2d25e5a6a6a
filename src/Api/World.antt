-- ===== src/Api/World.antt =====
-- What a handler of server/internal/api works on: the database, the registry, and the write channel
-- of each WebSocket connection (buddy_ws.go).
pub mod Steps
pub mod Timing
use clawgard.Prelude.{
  ℕ, String, Bool, true, false, Option, none, some, List, [], ◌∷◌, ◌++◌, ltb, ◌==◌, Comparable-ℕ,
  if◌then◌else◌, length,
}
use clawgard.Exec.{Result, ok, err, Exec, pure, leave, ◌>>=◌}
use clawgard.Assoc.{Assoc, lookup, put}
use clawgard.Store.Db.{Db, Error, Sql}
use clawgard.Router.Registry.{InFrame, OutFrame, Registry, send_question}
use clawgard.Api.Http.{Response}

pub record World : Type 0 where
  pub db : Db
  pub reg : Registry
  pub wires : Assoc ℕ (List InFrame)

abbrev pub Handler : Type 0 → Type 0
Handler A = Exec Response World A

-- A handler that came to its end, or returned early, has written one response.
abbrev pub written : Result Response Response → Response
written (ok r) = r
written (err r) = r

abbrev pub answer : Result Response Response × World → Response × World
answer (r, w) = (written r, w)

abbrev pub serve : Handler Response → World → Response × World
serve h w = answer (h w)

-- A call of the store, with its error as a value.
abbrev pub lift_db {ℓ} : {A : Type ℓ} → World → A × Db → Result Response A × World
lift_db w (r, db) = (ok r, record w { db = db })

unfoldable pub query : {A : Type 0} → Sql A → Handler (Result Error A)
query m w = lift_db w (m w.db)

abbrev pub or_leave : {A : Type 0} → (Error → Response) → Result Error A → Handler A
or_leave refuse (ok a) = pure a
or_leave refuse (err e) = leave (refuse e)

-- `if err != nil { writeError(…); return }`
unfoldable pub attempt : {A : Type 0} → Sql A → (Error → Response) → Handler A
unfolding query
attempt m refuse = do r ← query m; or_leave refuse r

abbrev pub or_refuse : {A : Type 0} → Option A → Response → Handler A
or_refuse none r = leave r
or_refuse (some a) r = pure a

abbrev pub write_capacity : ℕ
write_capacity = 16

abbrev pub wire_at : ℕ → World → List InFrame
wire_at conn w = elim (lookup conn w.wires) [ none ↦ [] | some q ↦ q ]

-- The writer callback: `select { case writeCh <- f: default: }`
unfoldable pub write_frame : ℕ → InFrame → World → World
write_frame conn f w =
    if ltb (length (wire_at conn w)) write_capacity
    then record w { wires = put conn (wire_at conn w ++ f ∷ []) w.wires }
    else w

abbrev pub written_to : InFrame → World → Option ℕ × Registry → Result Response Bool × World
written_to f w (none, reg) = (ok false, record w { reg = reg })
written_to f w (some conn, reg) = (ok true, write_frame conn f (record w { reg = reg }))

-- `reg.SendQuestion`; `false` is `ErrBuddyOffline`.
unfoldable pub send : ℕ → InFrame → Handler Bool
unfolding write_frame
send buddy f w = written_to f w (send_question buddy f w.reg)
