-- ===== src/Sweeper.antt =====
-- server/internal/sweeper/sweeper.go: `RunOnce`. Its clock is the database's; an error of one close is
-- logged and the loop goes on. `Run` calls it at each tick until its context ends.
pub mod Idle
use clawgard.Prelude.{ℤ, minus, List, [], ◌∷◌}
use clawgard.Exec.{Result, ok, err, Exec, pure, reads, ◌>>=◌, ◌>>◌}
use clawgard.Store.Db.{Db, Error, Sql}
use clawgard.Store.Threads.{Thread, close, list_idle_open}

-- `for _, th := range threads { Close(…) }`
unfoldable pub close_all : List Thread → Db → Db
close_all [] db = db
close_all (th ∷ ths) db = close_all ths (close th.id "idle_timeout" db).1

abbrev pub swept : Result Error (List Thread) → Db → Db
swept (err e) db = db
swept (ok ths) db = close_all ths db

unfoldable pub run_once : ℤ → Db → Db
unfolding close_all
run_once idle db = let (r, db') = list_idle_open (minus db.now idle) db in swept r db'
