-- ===== src/Store/Messages/Calm.antt =====
-- What `Open` and `Append` of server/internal/store do while statements run.
use clawgard.Prelude.{
  ℕ, ◌+◌, ◌≡◌, ◌∙◌, String, true, false, [], ◌∷◌, ◌++◌, ◌==◌, Comparable-ℕ, exists, update_where,
}
use clawgard.Exec.{ok, ◌>>=◌}
use clawgard.Store.Db.{Db, statement, new_uuid}
use clawgard.Store.Db.Calm.{statement-calm}
use clawgard.Store.Threads.{
  scan_thread, has_id, new_row, insert_thread, open_thread, update_activity, touch_activity,
}
use clawgard.Store.Messages.{NewMessage, message_row, is_acceptable, insert_message, append}

-- The id of the next row.
abbrev pub next_id : Db → ℕ
next_id db = db.uuids db.drawn

module _ (buddy : ℕ) (email : String) (db : Db) where
  abbrev pub opened : Db
  opened = record db {
    threads = db.threads ++ new_row (next_id db) buddy email db.now ∷ [];
    drawn = db.drawn + 1;
  }

  pub open_thread-calm :
      db.schedule ≡ []
      → exists (has_id (next_id db)) db.threads ≡ false
      → exists (λ b. b.id == buddy) db.buddies ≡ true
      → open_thread buddy email db
        ≡ (ok (scan_thread (new_row (next_id db) buddy email db.now)), opened)
  unfolding open_thread new_uuid insert_thread ◌>>=◌
  open_thread-calm calm fresh known =
      rw
        (statement-calm (insert_thread (next_id db) buddy email)
          (record db { drawn = db.drawn + 1 }) calm)
        (rw (fresh, known))

module _ (m : NewMessage) (db : Db) where
  abbrev pub appended : Db
  appended = record db {
    messages =
        db.messages
        ++ record {
          id = next_id db;
          thread_id = m.thread_id;
          role = m.role;
          type = m.type;
          content = m.content;
          created_at = db.now;
        }
          ∷ [];
    threads =
        update_where (λ r. r.id == m.thread_id) (λ r. record r { last_activity_at = db.now })
          db.threads;
    drawn = db.drawn + 1;
  }

  abbrev inserted : Db
  inserted = record db {
    messages = db.messages ++ message_row (next_id db) m db.now ∷ [];
    drawn = db.drawn + 1;
  }

  insert-calm :
      db.schedule ≡ []
      → is_acceptable (next_id db) m db ≡ true
      → statement (insert_message (next_id db) m) (record db { drawn = db.drawn + 1 })
        ≡ (ok (message_row (next_id db) m db.now), inserted)
  unfolding insert_message
  insert-calm calm fine =
      statement-calm (insert_message (next_id db) m) (record db { drawn = db.drawn + 1 }) calm
      ∙ rw fine

  touch-calm : db.schedule ≡ [] → touch_activity m.thread_id inserted ≡ (ok tt, appended)
  unfolding touch_activity update_activity
  touch-calm calm = statement-calm (update_activity m.thread_id) inserted calm

  pub append-calm :
      db.schedule ≡ []
      → is_acceptable (next_id db) m db ≡ true
      → append m db ≡ (ok (message_row (next_id db) m db.now), appended)
  unfolding append new_uuid ◌>>=◌
  append-calm calm fine = rw (insert-calm calm fine) (rw (touch-calm calm))
