-- ===== src/Api/Hatchling/Answered.antt =====
-- From a buddy's answer to the hatchling's next poll: server/internal/api/buddy_ws.go and hatchling.go over
-- the same store.
use clawgard.Prelude.{
  ℕ, ◌<◌, ◌&&◌, ltb, exists, false, Bool, ◌≡◌, refl, ap, ◌∙◌, String, true, ◌||◌, Option, some,
  List, [], ◌∷◌, ◌++◌, arith, ◌==◌, Comparable-ℕ, Comparable-String, find?, update_where, keep,
  order_by, All, nat_eq_iff,
}
use clawgard.Exec.{Result, ok, pure, ◌>>=◌}
use clawgard.Store.Db.{Db, ThreadRow, Message, Error, open_status}
use clawgard.Store.Db.Calm.{statement-calm}
use clawgard.Store.Threads.{scan_thread, has_id, closes, closed_row, touched_row}
use clawgard.Store.Threads.Turns.{get-found}
use clawgard.Store.Messages.{message_row, is_acceptable, older, list, list_since}
use clawgard.Store.Messages.Calm.{next_id, appended}
use clawgard.Store.Buddies.{touch_last_seen}
use clawgard.Router.Registry.{OutFrame, deliver_out_frame}
use clawgard.Api.Http.{
  Uuid, Identity, identity_or_zero, respond, thread, to_thread_resp, messages_field,
}
use clawgard.Api.World.{World, serve, answer}
use clawgard.Api.World.Steps.{handler-step, attempt-ok, query-step, or_refuse-some, guard-true}
use clawgard.Api.BuddyWs.{from_buddy, on_message}
use clawgard.Api.BuddyWs.Persisted.{ended, persist-calm}
use clawgard.Store.Messages.Ordered.{Ascending, Ascending-last, order_by-Ascending, keep-last}
use clawgard.Api.Hatchling.Found.{has_messages-last, after_wait-found}
use clawgard.Api.Hatchling.{
  Event, wait_seconds, since_time, has_messages, after_wait, thread_missing, not_yours, internal,
  hatchling_get_thread,
}

-- The frame of an answer.
abbrev pub answer_to : String → String → String → OutFrame
answer_to thread_id content reason = record {
  type = "answer";
  thread_id = thread_id;
  content = content;
  reason = reason;
}

-- The thread's row once it is answered.
abbrev pub answered_row : ℕ → ThreadRow → ThreadRow
answered_row now row = closed_row now "answered" (touched_row now row)

find?-answered :
    (id now : ℕ) (rows : List ThreadRow) (row : ThreadRow)
    → find? (has_id id) rows ≡ some row
    → row.status ≡ open_status
    → find? (has_id id) (
        update_where
          (closes id)
          (closed_row now "answered")
          (update_where (has_id id) (touched_row now) rows))
      ≡ some (answered_row now row)
find?-answered id now [] row h open_row = cc
find?-answered id now (r ∷ rows) row h open_row = ground (arith, find?-answered id now rows row)

module _ (u : Uuid) (buddy id : ℕ) (text content reason : String) (row : ThreadRow) (w : World)
    (calm : w.db.schedule ≡ []) (named : u.parse text ≡ some id)
    (fine : is_acceptable (next_id w.db) (from_buddy id (answer_to text content reason)) w.db
      ≡ true) where
  abbrev frame : OutFrame
  frame = answer_to text content reason

  abbrev delivered : World
  delivered = record w { reg = deliver_out_frame frame w.reg }

  abbrev persisted : World
  persisted = record delivered { db = ended id frame (appended (from_buddy id frame) w.db) }

  abbrev seen : World
  seen = record persisted {
    db = record persisted.db {
      buddies =
          update_where (λ r. r.id == buddy) (λ r. record r { last_seen_at = some w.db.now })
            w.db.buddies;
    };
  }

  on_message-answer : on_message u buddy (some frame) w ≡ (ok tt, seen)
  unfolding on_message touch_last_seen ◌>>=◌
  on_message-answer = rw (persist-calm u frame id delivered calm refl named fine) (
      query-step (λ _. pure tt) persisted (touch_last_seen buddy) (ok tt) seen.db
        (statement-calm _ persisted.db calm))

  abbrev mine : Message → Bool
  mine m = m.thread_id == id

  abbrev stored : Message
  stored = message_row (next_id w.db) (from_buddy id frame) w.db.now

  -- The answer is among the messages since any earlier time.
  list_since-answer :
      (since : ℕ) → since < w.db.now → has_messages (list_since id since seen.db).0 ≡ true
  unfolding list_since
  list_since-answer since before =
      let p : Message → Bool = λ m. mine m && ltb since m.created_at in
      rw
        (
          statement-calm {A = List Message} (λ d. (ok (order_by older (keep p d.messages)), d))
              seen.db calm,
          keep-last p stored w.db.messages (ground (arith, nat_eq_iff id id)),
        )
        (has_messages-last stored (keep p w.db.messages))

  module _ (past : All (λ (x : Message). x.created_at < w.db.now) (keep mine w.db.messages))
      (ascending : Ascending (keep mine w.db.messages)) where
    list-answer : list id seen.db ≡ (ok (keep mine w.db.messages ++ stored ∷ []), seen.db)
    unfolding list
    list-answer =
        statement-calm _ seen.db calm
        ∙ ap (λ (ms : List Message). told (order_by older ms))
            (keep-last mine stored w.db.messages (ground (arith, nat_eq_iff id id)))
        ∙ ap told (
            order_by-Ascending (keep mine w.db.messages ++ stored ∷ [])
              (Ascending-last stored (keep mine w.db.messages) past ascending))
      where
        told : List Message → Result Error (List Message) × Db
        told ms = (ok ms, seen.db)

    module _ (ctx : Option Identity) (param : String) (wait since : Option ℕ) (events : List Event)
        (asked : u.parse param ≡ some id) (found : find? (has_id id) w.db.threads ≡ some row)
        (open_row : row.status ≡ open_status)
        (allowed : (row.hatchling_email == (identity_or_zero ctx).email
            || (identity_or_zero ctx).admin)
          ≡ true)
        (before : since_time since < w.db.now) where
      after_row : find? (has_id id) seen.db.threads ≡ some (answered_row w.db.now row)
      after_row = find?-answered id w.db.now w.db.threads row found open_row

      polled : hatchling_get_thread u ctx param wait since events seen ≡ (
        ok (
            respond 200 (
              thread (
                to_thread_resp u
                  (scan_thread (answered_row w.db.now row))
                  (keep mine w.db.messages ++ stored ∷ [])))),
        seen,
      )
      unfolding hatchling_get_thread
      polled =
          or_refuse-some _ seen (u.parse param) _ id asked
          ∙ attempt-ok _ seen _ thread_missing (scan_thread (answered_row w.db.now row)) seen.db
              (get-found id (answered_row w.db.now row) seen.db calm after_row)
          ∙ guard-true _ seen _ not_yours allowed
          ∙ handler-step _ seen (after_wait (wait_seconds wait) id (since_time since) events _) _
              seen
              (after_wait-found id (since_time since) (answered_row w.db.now row) seen calm
                (list_since-answer (since_time since) before) after_row (wait_seconds wait) events)
          ∙ attempt-ok _ seen (list id) internal _ seen.db list-answer

messages_field-last :
    (ms : List Message) (m : Message) → messages_field (ms ++ m ∷ []) ≡ some (ms ++ m ∷ [])
messages_field-last [] m = refl
messages_field-last (x ∷ ms) m = refl

-- A buddy's answer to an open thread, and then a poll of the thread by its asker or an administrator,
-- for news since a time before the answer and however long it would wait: while statements run, the
-- poll is answered at once, with 200, with the thread closed at the time of the answer and with its
-- messages in their order, the answer's text last; the poll changes nothing. The thread is there, the
-- answer's key is new, and the thread's messages are older than the answer and came at increasing times.
pub answered_lem :
    (u : Uuid) (buddy id : ℕ) (text content reason : String) (row : ThreadRow) (w : World)
    (ctx : Option Identity) (param : String) (wait since : Option ℕ) (events : List Event)
    → w.db.schedule ≡ []
    → u.parse text ≡ some id
    → exists (λ m. m.id == w.db.uuids w.db.drawn) w.db.messages ≡ false
    → exists (λ r. r.id == id) w.db.threads ≡ true
    → u.parse param ≡ some id
    → find? (λ r. r.id == id) w.db.threads ≡ some row
    → row.status ≡ open_status
    → (row.hatchling_email == (identity_or_zero ctx).email || (identity_or_zero ctx).admin) ≡ true
    → All (λ (x : Message). x.created_at < w.db.now) (keep (λ x. x.thread_id == id) w.db.messages)
    → Ascending (keep (λ x. x.thread_id == id) w.db.messages)
    → since_time since < w.db.now
    → let after = (on_message u buddy (some (answer_to text content reason)) w).1 in
      serve (hatchling_get_thread u ctx param wait since events) after ≡ (
        respond 200 (
            thread (record {
              id = u.print row.id;
              buddy_id = u.print row.buddy_id;
              hatchling_email = row.hatchling_email;
              status = "closed";
              turns = row.turns;
              created_at = row.created_at;
              closed_at = some w.db.now;
              messages = some (
                  keep (λ x. x.thread_id == id) w.db.messages
                  ++ record {
                    id = w.db.uuids w.db.drawn;
                    thread_id = id;
                    role = "buddy";
                    type = "answer";
                    content = content;
                    created_at = w.db.now;
                  }
                    ∷ []);
            })),
        after,
      )
answered_lem u buddy id text content reason row w ctx param wait since events calm named new there
      asked found open_row allowed past ascending before =
    let fine : is_acceptable (next_id w.db) (from_buddy id (answer_to text content reason)) w.db
        ≡ true =
      rw (new, there) refl in
    rw
      (
        on_message-answer u buddy id text content reason row w calm named fine,
        ← messages_field-last (keep (λ x. x.thread_id == id) w.db.messages)
            (message_row (next_id w.db) (from_buddy id (answer_to text content reason)) w.db.now),
      )
      (ap answer (
        polled u buddy id text content reason row w calm named fine past ascending ctx param wait
          since events asked found open_row allowed before))
