-- ===== src/Store/Messages.antt =====
-- server/internal/store/messages.go
pub mod Calm
pub mod Ordered
use clawgard.Prelude.{
  ℕ, String, Bool, ◌&&◌, List, [], ◌∷◌, ◌++◌, ltb, leb, ◌==◌, Comparable-ℕ, if◌then◌else◌, exists,
  keep, order_by, not,
}
use clawgard.Exec.{Result, ok, err, pure, ◌>>=◌, ◌>>◌}
use clawgard.Store.Db.{
  Db, Message, Error, constraint, Sql, statement, new_uuid, check_role, check_type,
}
use clawgard.Store.Threads.{has_id, touch_activity}

pub record NewMessage : Type 0 where
  pub thread_id : ℕ
  pub role : String
  pub type : String
  pub content : String

abbrev pub message_row : ℕ → NewMessage → ℕ → Message
message_row id m now = record {
  id = id;
  thread_id = m.thread_id;
  role = m.role;
  type = m.type;
  content = m.content;
  created_at = now;
}

-- The key is new, the thread exists, and the two CHECK constraints hold.
abbrev pub is_acceptable : ℕ → NewMessage → Db → Bool
is_acceptable id m db =
    not (exists (λ r. r.id == id) db.messages)
    && exists (has_id m.thread_id) db.threads
    && check_role m.role
    && check_type m.type

-- INSERT INTO messages
unfoldable pub insert_message : ℕ → NewMessage → Sql Message
insert_message id m db =
    if is_acceptable id m db
    then (
      ok (message_row id m db.now),
      record db { messages = db.messages ++ message_row id m db.now ∷ [] },
    )
    else (err constraint, db)

-- `_, _ = Exec(…)`: the action's own error is dropped.
abbrev pub ignore_error {ℓ} :
    {A : Type ℓ} → Result Error (Unit {0}) × A → Result Error (Unit {0}) × A
ignore_error (r, s) = (ok tt, s)

unfoldable pub append : NewMessage → Sql Message
append m = do
  id ← new_uuid
  msg ← statement (insert_message id m)
  λ db. ignore_error (touch_activity m.thread_id db)
  pure msg

-- ORDER BY created_at. Messages of the same time stand in the order of the table here; the database
-- promises none for them.
abbrev pub older : Message → Message → Bool
older a b = leb a.created_at b.created_at

unfoldable pub list : ℕ → Sql (List Message)
list thread_id =
    statement (λ db. (ok (order_by older (keep (λ m. m.thread_id == thread_id) db.messages)), db))

-- Messages created strictly after `since`.
unfoldable pub list_since : ℕ → ℕ → Sql (List Message)
list_since thread_id since = statement λ db. (
  ok (order_by older (keep (λ m. m.thread_id == thread_id && ltb since m.created_at) db.messages)),
  db,
)
