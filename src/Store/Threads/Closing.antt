-- ===== src/Store/Threads/Closing.antt =====
-- `Close` of server/internal/store/threads.go while statements run.
use clawgard.Prelude.{ℕ, ◌≡◌, String, [], update_where}
use clawgard.Exec.{ok}
use clawgard.Store.Db.{Db}
use clawgard.Store.Db.Calm.{statement-calm}
use clawgard.Store.Threads.{closes, closed_row, close, update_close}

pub close-calm :
    (id : ℕ) (reason : String) (db : Db)
    → db.schedule ≡ []
    → close id reason db ≡ (
      ok tt,
      record db { threads = update_where (closes id) (closed_row db.now reason) db.threads },
    )
unfolding close update_close
close-calm id reason db e = statement-calm (update_close id reason) db e
