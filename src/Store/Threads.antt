-- ===== src/Store/Threads.antt =====
-- server/internal/store/threads.go
pub mod Closing
pub mod Turns
pub mod Cap
use clawgard.Prelude.{
  ℕ, ◌+◌, String, Bool, true, false, ◌&&◌, Option, none, some, List, [], ◌∷◌, ◌++◌, map, ltb, ◌==◌,
  Comparable-ℕ, Comparable-String, if◌then◌else◌, find?, exists, keep, update_where,
}
use clawgard.Exec.{Result, ok, err, pure, leave, ◌>>=◌, ◌>>◌}
use clawgard.Store.Db.{
  Db, ThreadRow, Status, open_status, closed_status, Error, constraint, no_rows, thread_not_found,
  turn_cap_exceeded, thread_closed, Sql, statement, new_uuid,
}

pub record Thread : Type 0 where
  pub id : ℕ
  pub buddy_id : ℕ
  pub hatchling_email : String
  pub status : String
  pub turns : ℕ
  pub created_at : ℕ
  pub last_activity_at : ℕ
  pub closed_at : Option ℕ
  pub close_reason : String

abbrev pub text_or_empty : Option String → String
text_or_empty none = ""
text_or_empty (some s) = s

abbrev pub status_text : Status → String
status_text open_status = "open"
status_text closed_status = "closed"

abbrev pub scan_thread : ThreadRow → Thread
scan_thread r = record {
  id = r.id;
  buddy_id = r.buddy_id;
  hatchling_email = r.hatchling_email;
  status = status_text r.status;
  turns = r.turns;
  created_at = r.created_at;
  last_activity_at = r.last_activity_at;
  closed_at = r.closed_at;
  close_reason = text_or_empty r.close_reason;
}

-- Go's zero value, which comes beside an error.
abbrev pub zero_thread : Thread
zero_thread = record {
  id = 0;
  buddy_id = 0;
  hatchling_email = "";
  status = "";
  turns = 0;
  created_at = 0;
  last_activity_at = 0;
  closed_at = none;
  close_reason = "";
}

abbrev pub is_open : Status → Bool
is_open open_status = true
is_open closed_status = false

abbrev pub has_id : ℕ → ThreadRow → Bool
has_id id r = r.id == id

-- A row with the columns' defaults.
abbrev pub new_row : ℕ → ℕ → String → ℕ → ThreadRow
new_row id buddy_id email now = record {
  id = id;
  buddy_id = buddy_id;
  hatchling_email = email;
  status = open_status;
  turns = 0;
  created_at = now;
  last_activity_at = now;
  closed_at = none;
  close_reason = none;
}

-- INSERT INTO threads: the key is new, and the buddy exists, deleted or not.
unfoldable pub insert_thread : ℕ → ℕ → String → Sql ThreadRow
insert_thread id buddy_id email db =
    if exists (has_id id) db.threads
    then (err constraint, db)
    else if exists (λ b. b.id == buddy_id) db.buddies
    then (
      ok (new_row id buddy_id email db.now),
      record db { threads = db.threads ++ new_row id buddy_id email db.now ∷ [] },
    )
    else (err constraint, db)

unfoldable pub open_thread : ℕ → String → Sql Thread
open_thread buddy_id email = do
  id ← new_uuid
  row ← statement (insert_thread id buddy_id email)
  pure (scan_thread row)

unfoldable pub select_thread : ℕ → Sql ThreadRow
select_thread id db = elim (find? (has_id id) db.threads) [
  | none ↦ (err no_rows, db)
  | some row ↦ (ok row, db)
]

-- Any error, of the driver too, is reported as `ErrThreadNotFound`.
abbrev pub or_not_found : Result Error ThreadRow × Db → Result Error Thread × Db
or_not_found (ok row, db) = (ok (scan_thread row), db)
or_not_found (err e, db) = (err thread_not_found, db)

unfoldable pub get : ℕ → Sql Thread
get id db = or_not_found (statement (select_thread id) db)

abbrev pub closes : ℕ → ThreadRow → Bool
closes id r = r.id == id && is_open r.status

abbrev pub closed_row : ℕ → String → ThreadRow → ThreadRow
closed_row now reason r = record r {
  status = closed_status;
  closed_at = some now;
  close_reason = some reason;
  last_activity_at = now;
}

unfoldable pub update_close : ℕ → String → Sql (Unit {0})
update_close id reason db =
    (ok tt, record db { threads = update_where (closes id) (closed_row db.now reason) db.threads })

-- A thread that is already closed, or is not there, is no error.
unfoldable pub close : ℕ → String → Sql (Unit {0})
close id reason = statement (update_close id reason)

abbrev pub max_turns : ℕ
max_turns = 3

abbrev pub bumps : ℕ → ThreadRow → Bool
bumps id r = r.id == id && is_open r.status && ltb r.turns max_turns

abbrev pub bumped_row : ℕ → ThreadRow → ThreadRow
bumped_row now r = record r { turns = r.turns + 1; last_activity_at = now }

unfoldable pub update_turns : ℕ → Sql ℕ
update_turns id db = elim (find? (bumps id) db.threads) [
  | none ↦ (err no_rows, db)
  | some row ↦ (
    ok (row.turns + 1),
    record db { threads = update_where (bumps id) (bumped_row db.now) db.threads },
  )
]

-- Why no row was updated: the thread is missing, closed, or at its cap.
unfoldable pub explain : ℕ → Sql ℕ
explain id = do
  current ← get id
  leave (
      if current.status == "closed"
      then thread_closed current.turns
      else turn_cap_exceeded current.turns)

abbrev pub or_explain : ℕ → Result Error ℕ × Db → Result Error ℕ × Db
or_explain id (ok turns, db) = (ok turns, db)
or_explain id (err e, db) = explain id db

unfoldable pub increment_turns : ℕ → Sql ℕ
increment_turns id db = or_explain id (statement (update_turns id) db)

abbrev pub touched_row : ℕ → ThreadRow → ThreadRow
touched_row now r = record r { last_activity_at = now }

unfoldable pub update_activity : ℕ → Sql (Unit {0})
update_activity id db =
    (ok tt, record db { threads = update_where (has_id id) (touched_row db.now) db.threads })

unfoldable pub touch_activity : ℕ → Sql (Unit {0})
touch_activity id = statement (update_activity id)

abbrev pub idle_before : ℕ → ThreadRow → Bool
idle_before cutoff r = is_open r.status && ltb r.last_activity_at cutoff

unfoldable pub list_idle_open : ℕ → Sql (List Thread)
list_idle_open cutoff =
    statement (λ db. (ok (map scan_thread (keep (idle_before cutoff) db.threads)), db))
