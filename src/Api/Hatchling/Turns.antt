-- ===== src/Api/Hatchling/Turns.antt =====
-- The cap on clarifications in server/internal/api/hatchling.go.
use clawgard.Prelude.{
  ℕ, ◌+◌, ◌≤◌, ◌≡◌, ◌≢◌, refl, ap, ◌∙◌, String, true, false, ◌&&◌, Option, none, some, [], arith,
  eq_iff, ltb, ◌<◌, lt→ltb, ◌==◌, Comparable-ℕ, Comparable-String, if◌then◌else◌, find?,
  update_where,
}
use clawgard.Assoc.{lookup}
use clawgard.Exec.{ok, err, pure, guard, ◌>>=◌, ◌>>◌}
use clawgard.Store.Db.{Db, ThreadRow, Status, open_status, closed_status, turn_cap_exceeded}
use clawgard.Store.History.{UniqueIds}
use clawgard.Store.Threads.{
  scan_thread, has_id, max_turns, is_open, bumps, bumped_row, closes, closed_row, close,
  increment_turns,
}
use clawgard.Store.Threads.Closing.{close-calm}
use clawgard.Store.Threads.Turns.{get-found, increment_turns_lem, increment_turns-capped}
use clawgard.Store.Messages.{NewMessage, is_acceptable}
use clawgard.Store.Messages.Calm.{next_id, appended, append-calm}
use clawgard.Router.Registry.{InFrame, BuddyEntry, ensure_waiter, send_question}
use clawgard.Api.Http.{
  empty, internal, Uuid, Identity, identity_or_zero, Response, write_error, says, respond,
}
use clawgard.Api.World.{World, Handler, send, write_frame, serve, answer}
use clawgard.Api.World.Steps.{
  pure-step, send-online, send-offline, attempt-ok, query-step, or_refuse-some, guard-true,
  guard-false,
}
use clawgard.Api.Hatchling.{
  buddy_offline, bad_request, thread_missing, not_yours, hatchling_post_clarification, clarify,
  turn_refused,
}

abbrev pub conflict : Response
conflict = write_error 409 "conflict" (says "thread closed")

abbrev pub exhausted : Response
exhausted = write_error 409 "turn_cap_exceeded" (says "clarification turns exhausted")

-- What the database holds once the thread was closed for its turns.
abbrev pub capped_db : ℕ → Db → Db
capped_db id db = record db {
  threads = update_where (closes id) (closed_row db.now "turn_cap_reached") db.threads;
}

turn_refused-capped :
    (id n : ℕ) (w : World)
    → w.db.schedule ≡ []
    → turn_refused id (turn_cap_exceeded n) w ≡ (err exhausted, record w { db = capped_db id w.db })
unfolding turn_refused
turn_refused-capped id n w calm =
    query-step _ w (close id "turn_cap_reached") _ _ (close-calm id "turn_cap_reached" w.db calm)

no_turn_left :
    (row : ThreadRow)
    → row.status ≡ open_status
    → (is_open row.status && ltb row.turns max_turns) ≡ false
    → max_turns ≤ row.turns
no_turn_left row e h = ground arith

module _ (u : Uuid) (ctx : Option Identity) (param content : String) (id : ℕ) (row : ThreadRow)
    (w : World) (calm : w.db.schedule ≡ []) (parsed : u.parse param ≡ some id)
    (found : find? (has_id id) w.db.threads ≡ some row)
    (mine : row.hatchling_email ≡ (identity_or_zero ctx).email) (given : content ≢ "") where
  abbrev caller : Identity
  caller = identity_or_zero ctx

  -- With every check but the last passed.
  abbrev checked : Handler Response
  checked = do
    guard ((scan_thread row).status == "open") conflict
    clarify u caller (scan_thread row) id content

  reaches_status : hatchling_post_clarification u ctx param (some content) w ≡ checked w
  unfolding hatchling_post_clarification
  reaches_status =
      or_refuse-some _ w _ _ id parsed
      ∙ or_refuse-some _ w _ (bad_request "content required") content refl
      ∙ guard-true _ w _ _ (ground (arith, eq_iff content ""))
      ∙ attempt-ok _ w _ thread_missing (scan_thread row) w.db (get-found id row w.db calm found)
      ∙ guard-true _ w _ not_yours (ground (arith, eq_iff row.hatchling_email caller.email))

  closed_refused :
      row.status ≡ closed_status
      → hatchling_post_clarification u ctx param (some content) w ≡ (err conflict, w)
  closed_refused closed = reaches_status ∙ guard-false _ w _ conflict (rw closed refl)

  reaches_clarify :
      row.status ≡ open_status
      → hatchling_post_clarification u ctx param (some content) w
        ≡ clarify u caller (scan_thread row) id content w
  reaches_clarify open_row = reaches_status ∙ guard-true _ w _ conflict (rw open_row refl)

  capped_refused :
      UniqueIds (λ r. r.id) w.db.threads
      → row.status ≡ open_status
      → max_turns ≤ row.turns
      → hatchling_post_clarification u ctx param (some content) w
        ≡ (err exhausted, record w { db = capped_db id w.db })
  unfolding clarify ◌>>=◌
  capped_refused unique open_row full =
      reaches_clarify open_row
      ∙ query-step _ w (increment_turns id) _ _
          (increment_turns-capped id row w.db calm unique found open_row full)
      ∙ rw (turn_refused-capped id row.turns w calm) refl

  -- For its asker, a thread with no turn left refuses a clarification with 409: a closed one as it
  -- is, and an open one at 3 turns, which is closed with the reason turn_cap_reached. While statements
  -- run, and keys are unique.
  pub clarification_refused :
      UniqueIds (λ r. r.id) w.db.threads
      → (is_open row.status && ltb row.turns max_turns) ≡ false
      → serve (hatchling_post_clarification u ctx param (some content)) w ≡ (
          if is_open row.status
          then (exhausted, record w { db = capped_db id w.db })
          else (conflict, w))
  clarification_refused unique none_left = by_status row.status refl
    where
      by_status :
          (s : Status)
          → row.status ≡ s
          → serve (hatchling_post_clarification u ctx param (some content)) w ≡ (
              if is_open row.status
              then (exhausted, record w { db = capped_db id w.db })
              else (conflict, w))
      by_status closed_status e = ap answer (closed_refused e) ∙ rw e refl
      by_status open_status e =
          ap answer (capped_refused unique e (no_turn_left row e none_left)) ∙ rw e refl

  module _ (unique : UniqueIds (λ r. r.id) w.db.threads) (open_row : row.status ≡ open_status)
      (below : row.turns < max_turns) where
    abbrev message : NewMessage
    message = record {
      thread_id = id;
      role = "hatchling";
      type = "clarification";
      content = content;
    }

    abbrev bumped_db : Db
    bumped_db = record w.db { threads = update_where (bumps id) (bumped_row w.db.now) w.db.threads }

    abbrev frame : InFrame
    frame = record {
      type = "clarification";
      thread_id = u.print id;
      content = content;
      asker_email = caller.email;
    }

    bumped : increment_turns id w.db ≡ (ok (row.turns + 1), bumped_db)
    bumped =
        increment_turns_lem id w.db calm unique
        ∙ rw (found, open_row, lt→ltb row.turns max_turns below) refl

    reaches_send :
        is_acceptable (next_id w.db) message bumped_db ≡ true
        → hatchling_post_clarification u ctx param (some content) w
          ≡ (do
            sent ← send row.buddy_id frame
            guard sent (buddy_offline "buddy dropped")
            pure (respond 202 empty))
              (record w { db = appended message bumped_db })
    unfolding clarify
    reaches_send fine =
        reaches_clarify open_row
        ∙ query-step _ w (increment_turns id) _ _ bumped
        ∙ pure-step _ _ (row.turns + 1)
        ∙ attempt-ok _ _ _ internal _ _ (append-calm message bumped_db calm fine)

    clarified_online :
        (entry : BuddyEntry)
        → is_acceptable (next_id w.db) message bumped_db ≡ true
        → lookup row.buddy_id w.reg.buddies ≡ some entry
        → hatchling_post_clarification u ctx param (some content) w ≡ (
          ok (respond 202 empty),
          write_frame entry.writer frame (record w {
            db = appended message bumped_db;
            reg = (ensure_waiter (u.print id) w.reg).1;
          }),
        )
    unfolding send_question
    clarified_online entry fine on =
        reaches_send fine
        ∙ send-online _ _ row.buddy_id frame entry.writer _ (rw (send_question, on) refl)
        ∙ guard-true _ _ true (buddy_offline "buddy dropped") refl

    clarified_offline :
        is_acceptable (next_id w.db) message bumped_db ≡ true
        → lookup row.buddy_id w.reg.buddies ≡ none
        → hatchling_post_clarification u ctx param (some content) w
          ≡ (err (buddy_offline "buddy dropped"), record w { db = appended message bumped_db })
    unfolding send_question
    clarified_offline fine off =
        reaches_send fine
        ∙ send-offline _ _ row.buddy_id frame _ (rw (send_question, off) refl)
        ∙ guard-false _ _ false (buddy_offline "buddy dropped") refl

    -- What the asker is answered, and where the frame goes, by the buddy's connection.
    abbrev sent_to : Option BuddyEntry → World → Response × World
    sent_to none v = (buddy_offline "buddy dropped", v)
    sent_to (some entry) v = (
      respond 202 empty,
      write_frame entry.writer frame (record v { reg = (ensure_waiter (u.print id) v.reg).1 }),
    )

    -- A clarification of an open thread below 3 turns, from its asker, costs one turn and is stored;
    -- then its frame is offered to the buddy's connection and the answer is 202, or, if the buddy is
    -- not connected, the answer is 503 and the turn stays spent. While statements run, keys are unique
    -- and the message's key is new.
    pub clarification_sent :
        is_acceptable (next_id w.db) message bumped_db ≡ true
        → serve (hatchling_post_clarification u ctx param (some content)) w
          ≡ sent_to
              (lookup row.buddy_id w.reg.buddies)
              (record w { db = appended message bumped_db })
    clarification_sent fine = by_entry (lookup row.buddy_id w.reg.buddies) refl
      where
        by_entry :
            (o : Option BuddyEntry)
            → lookup row.buddy_id w.reg.buddies ≡ o
            → serve (hatchling_post_clarification u ctx param (some content)) w
              ≡ sent_to o (record w { db = appended message bumped_db })
        by_entry none e = ap answer (clarified_offline fine e)
        by_entry (some entry) e = ap answer (clarified_online entry fine e)
