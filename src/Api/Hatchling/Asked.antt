-- ===== src/Api/Hatchling/Asked.antt =====
-- The part of `hatchlingOpenThread` of server/internal/api/hatchling.go that stores a question, counts
-- it and sends it.
use clawgard.Prelude.{
  ℕ, ◌+◌, ◌≡◌, refl, ap, ◌∙◌, String, Bool, true, false, none, some, List, [], ◌∷◌, ◌++◌, arith,
  ◌==◌, Comparable-ℕ, Comparable-String, exists, find?, update_where, nat_eq_iff,
}
use clawgard.Exec.{ok}
use clawgard.Assoc.{lookup}
use clawgard.Store.Db.{Db, ThreadRow, open_status}
use clawgard.Store.History.{UniqueIds, UniqueIds-append, exists-append_self}
use clawgard.Store.Threads.{increment_turns, scan_thread, has_id, bumps, bumped_row, touched_row}
use clawgard.Store.Threads.Turns.{increment_turns_lem}
use clawgard.Store.Messages.{NewMessage, append, message_row, is_acceptable}
use clawgard.Store.Messages.Calm.{next_id, opened, appended, open_thread-calm, append-calm}
use clawgard.Router.Registry.{InFrame, BuddyEntry, send_question, ensure_waiter}
use clawgard.Api.Http.{Uuid, Identity, respond, internal, thread, to_thread_resp}
use clawgard.Api.World.{World, write_frame}
use clawgard.Api.World.Steps.{attempt-ok, guard-true, send-online}
use clawgard.Api.Hatchling.{ask, buddy_offline}

-- A change of the rows of a key that only the last row has.
update_where-last :
    (id : ℕ) (p : ThreadRow → Bool) (f : ThreadRow → ThreadRow) (rows : List ThreadRow)
    (r : ThreadRow)
    → ((x : ThreadRow) → has_id id x ≡ false → p x ≡ false)
    → exists (has_id id) rows ≡ false
    → p r ≡ true
    → update_where p f (rows ++ r ∷ []) ≡ rows ++ f r ∷ []
update_where-last id p f [] r none_else fresh hit = ground arith
update_where-last id p f (x ∷ xs) r none_else fresh hit =
    ground (arith, none_else x, update_where-last id p f xs r none_else)

find-last :
    (id : ℕ) (rows : List ThreadRow) (r : ThreadRow)
    → exists (has_id id) rows ≡ false
    → r.id ≡ id
    → find? (has_id id) (rows ++ r ∷ []) ≡ some r
find-last id [] r fresh same = ground (arith, nat_eq_iff r.id id)
find-last id (x ∷ xs) r fresh same = ground (arith, find-last id xs r)

module _ (u : Uuid) (id : Identity) (buddy : ℕ) (question : String) (w : World) where
  open w use {db}

  -- The row of the new thread, before and after its first turn.
  abbrev pub first_row : ThreadRow
  first_row = record {
    id = next_id db;
    buddy_id = buddy;
    hatchling_email = id.email;
    status = open_status;
    turns = 0;
    created_at = db.now;
    last_activity_at = db.now;
    closed_at = none;
    close_reason = none;
  }

  abbrev pub asked_row : ThreadRow
  asked_row = record first_row { turns = 1 }

  abbrev pub asked_message : NewMessage
  asked_message = record {
    thread_id = next_id db;
    role = "hatchling";
    type = "question";
    content = question;
  }

  abbrev second_id : ℕ
  second_id = db.uuids (db.drawn + 1)

  -- The database when the question is stored and counted.
  abbrev pub asked_db : Db
  asked_db = record db {
    threads = db.threads ++ asked_row ∷ [];
    messages =
        db.messages
        ++ record {
          id = second_id;
          thread_id = next_id db;
          role = "hatchling";
          type = "question";
          content = question;
          created_at = db.now;
        }
          ∷ [];
    drawn = db.drawn + 1 + 1;
  }

  abbrev pub asked_frame : InFrame
  asked_frame = record {
    type = "question";
    thread_id = u.print (next_id db);
    content = question;
    asker_email = id.email;
  }

  module _ (calm : db.schedule ≡ []) (unique : UniqueIds (λ r. r.id) db.threads)
      (fresh_thread : exists (has_id (next_id db)) db.threads ≡ false)
      (fresh_message : exists (λ m. m.id == second_id) db.messages ≡ false)
      (known : exists (λ b. b.id == buddy) db.buddies ≡ true) where
    message_acceptable : is_acceptable second_id asked_message (opened buddy id.email db) ≡ true
    message_acceptable = ground (
      arith,
      fresh_message,
      exists-append_self (has_id (next_id db)) db.threads first_row
          (ground (arith, nat_eq_iff (next_id db) (next_id db))),
    )

    -- The touch of the append finds the new row as it is.
    appended-lem :
        appended asked_message (opened buddy id.email db)
        ≡ record asked_db { threads = db.threads ++ first_row ∷ [] }
    appended-lem =
        ap (λ (l : List ThreadRow). record asked_db { threads = l })
          (update_where-last (next_id db) (has_id (next_id db)) (touched_row db.now) db.threads
            first_row (λ x h. h) fresh_thread
            (ground (arith, nat_eq_iff (next_id db) (next_id db))))

    bumps_first : bumps (next_id db) first_row ≡ true
    bumps_first = ground (arith, nat_eq_iff (next_id db) (next_id db))

    stored : append asked_message (opened buddy id.email db) ≡ (
      ok (message_row second_id asked_message db.now),
      record asked_db { threads = db.threads ++ first_row ∷ [] },
    )
    stored =
        append-calm asked_message (opened buddy id.email db) calm message_acceptable
        ∙ ap (λ (d : Db). (ok (message_row second_id asked_message db.now), d)) appended-lem

    counted :
        increment_turns (next_id db) (record asked_db { threads = db.threads ++ first_row ∷ [] })
        ≡ (ok 1, asked_db)
    counted =
        increment_turns_lem (next_id db)
          (record asked_db { threads = db.threads ++ first_row ∷ [] }) calm
          (UniqueIds-append (λ r. r.id) db.threads first_row unique fresh_thread)
        ∙ rw
            (
              find-last (next_id db) db.threads first_row fresh_thread refl,
              update_where-last (next_id db) (bumps (next_id db)) (bumped_row db.now) db.threads
                  first_row (λ x h. ground (arith, h)) fresh_thread bumps_first,
            )
            refl

    pub asks :
        (entry : BuddyEntry)
        → lookup buddy w.reg.buddies ≡ some entry
        → ask u id buddy question w ≡ (
          ok (respond 201 (thread (to_thread_resp u (scan_thread first_row) []))),
          write_frame entry.writer asked_frame
              (record w { db = asked_db; reg = (ensure_waiter (u.print (next_id db)) w.reg).1 }),
        )
    unfolding ask send_question
    asks entry on =
        attempt-ok _ w _ internal _ _ (open_thread-calm buddy id.email db calm fresh_thread known)
        ∙ attempt-ok _ _ _ internal _ _ stored
        ∙ attempt-ok _ _ _ internal _ _ counted
        ∙ send-online _ _ buddy asked_frame entry.writer _ (rw (send_question, on) refl)
        ∙ guard-true _ _ true (buddy_offline "buddy dropped") refl
