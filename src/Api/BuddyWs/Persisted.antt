-- ===== src/Api/BuddyWs/Persisted.antt =====
-- What a buddy's frame does to its thread, in server/internal/api/buddy_ws.go.
use clawgard.Prelude.{
  ℕ, ◌≡◌, refl, ◌∙◌, Bool, true, false, some, [], Comparable-ℕ, Comparable-String, if◌then◌else◌,
  update_where, ap, Option, none, String, List, ◌∷◌, ◌++◌, ◌+◌, ◌==◌, arith, exists,
}
use clawgard.Exec.{Result, ok, pure, ◌>>◌}
use clawgard.Store.Db.{Db, ThreadRow, Status, open_status, closed_status}
use clawgard.Store.Threads.{closes, closed_row, close, has_id, touched_row}
use clawgard.Store.Threads.Closing.{close-calm}
use clawgard.Store.Messages.{append, is_acceptable}
use clawgard.Store.Messages.Calm.{next_id, appended, append-calm}
use clawgard.Router.Registry.{OutFrame}
use clawgard.Api.Http.{Uuid, Response}
use clawgard.Api.World.{World, query}
use clawgard.Api.World.Steps.{query-step}
use clawgard.Api.BuddyWs.{
  is_kept, ends_thread, reason_of, from_buddy, keep_frame, keep_parsed, persist,
}

-- The threads after a frame that ends a thread, or does not.
abbrev pub ended : ℕ → OutFrame → Db → Db
ended id f db =
    if ends_thread f.type
    then record db {
      threads = update_where (closes id) (closed_row db.now (reason_of f)) db.threads;
    }
    else db

keep_frame-calm :
    (id : ℕ) (f : OutFrame) (w : World)
    → w.db.schedule ≡ []
    → is_acceptable (next_id w.db) (from_buddy id f) w.db ≡ true
    → keep_frame id f w ≡ (ok tt, record w { db = ended id f (appended (from_buddy id f) w.db) })
unfolding keep_frame
keep_frame-calm id f w calm fine =
    query-step _ w (append (from_buddy id f)) _ _ (append-calm (from_buddy id f) w.db calm fine)
    ∙ by_end (ends_thread f.type)
  where
    v : World
    v = record w { db = appended (from_buddy id f) w.db }

    closed : Db
    closed = record v.db {
      threads = update_where (closes id) (closed_row v.db.now (reason_of f)) v.db.threads;
    }

    by_end :
        (b : Bool)
        → (if b then (query (close id (reason_of f)) >> pure tt) else pure tt) v
          ≡ (ok tt, record w { db = if b then closed else v.db })
    by_end true =
        query-step _ v (close id (reason_of f)) (ok tt) closed
          (close-calm id (reason_of f) v.db calm)
    by_end false = refl

pub persist-calm :
    (u : Uuid) (f : OutFrame) (id : ℕ) (w : World)
    → w.db.schedule ≡ []
    → is_kept f.type ≡ true
    → u.parse f.thread_id ≡ some id
    → is_acceptable (next_id w.db) (from_buddy id f) w.db ≡ true
    → persist u f w ≡ (ok tt, record w { db = ended id f (appended (from_buddy id f) w.db) })
unfolding persist keep_parsed
persist-calm u f id w calm kept parsed fine = rw (kept, parsed) (keep_frame-calm id f w calm fine)

-- What becomes of a thread's row: it has just been active, and if it was open and is to end, it is
-- closed with the reason.
abbrev pub end_by : Option String → ℕ → Status → ThreadRow → ThreadRow
end_by none now s r = record r { last_activity_at = now }
end_by (some reason) now closed_status r = record r { last_activity_at = now }
end_by (some reason) now open_status r = record r {
  status = closed_status;
  closed_at = some now;
  close_reason = some reason;
  last_activity_at = now;
}

-- The database with one more message of the buddy, in a thread that ends or goes on.
abbrev pub with_message : ℕ → String → String → Option String → Db → Db
with_message id type content end db = record db {
  messages =
      db.messages
      ++ record {
        id = db.uuids db.drawn;
        thread_id = id;
        role = "buddy";
        type = type;
        content = content;
        created_at = db.now;
      }
        ∷ [];
  threads = update_where (λ r. r.id == id) (λ r. end_by end db.now r.status r) db.threads;
  drawn = db.drawn + 1;
}

by_status :
    (now id : ℕ) (reason : String) (s : Status) (r : ThreadRow)
    → r.status ≡ s
    → let x = if r.id == id then touched_row now r else r in
      (if closes id x then closed_row now reason x else x)
      ≡ (if r.id == id then end_by (some reason) now s r else r)
by_status now id reason open_status r e = ground arith
by_status now id reason closed_status r e = ground arith

close-touched :
    (now id : ℕ) (reason : String) (rows : List ThreadRow)
    → update_where
        (closes id)
        (closed_row now reason)
        (update_where (has_id id) (touched_row now) rows)
      ≡ update_where (λ r. r.id == id) (λ r. end_by (some reason) now r.status r) rows
close-touched now id reason [] = refl
close-touched now id reason (r ∷ rows) =
    cc (by_status now id reason r.status r refl, close-touched now id reason rows)

-- An answer, a request for clarification or a close for a thread that is there is stored as a message of
-- the buddy, with the frame's type and its content (of a close without content, its reason). An answer
-- closes the thread, if it was open, as "answered", and a close with the reason that it gives, or
-- "buddy_closed" if it gives none; a request for clarification leaves it as it is but for its
-- last activity, and nothing else changes. While statements run, and the message's key is new.
pub persist_lem :
    (u : Uuid) (thread_id content reason : String) (id : ℕ) (w : World)
    → w.db.schedule ≡ []
    → u.parse thread_id ≡ some id
    → exists (λ m. m.id == w.db.uuids w.db.drawn) w.db.messages ≡ false
    → exists (λ r. r.id == id) w.db.threads ≡ true
    → let frame : String → OutFrame =
        λ type. record { type = type; thread_id = thread_id; content = content; reason = reason } in
      let kept : String → String → Option String → World =
        λ type text end. record w { db = with_message id type text end w.db } in
      (persist u (frame "answer") w ≡ (ok tt, kept "answer" content (some "answered")))
      × (persist u (frame "clarification_request") w
          ≡ (ok tt, kept "clarification_request" content none))
      × (persist u (frame "close") w ≡ (
        ok tt,
        kept "close"
            (if content == "" then reason else content)
            (some (if reason == "" then "buddy_closed" else reason)),
      ))
persist_lem u thread_id content reason id w calm parsed new known = (
  stored "answer" refl (rw (new, known) refl)
      ∙ ap (λ (l : List ThreadRow). at_end (frame "answer") l)
          (close-touched w.db.now id "answered" w.db.threads),
  stored "clarification_request" refl (rw (new, known) refl),
  stored "close" refl (rw (new, known) refl)
      ∙ ap (λ (l : List ThreadRow). at_end (frame "close") l)
          (close-touched w.db.now id (if reason == "" then "buddy_closed" else reason)
            w.db.threads),
)
  where
    frame : String → OutFrame
    frame type = record { type = type; thread_id = thread_id; content = content; reason = reason }

    at_end : OutFrame → List ThreadRow → Result Response (Unit {0}) × World
    at_end f l = (ok tt, record w { db = record (appended (from_buddy id f) w.db) { threads = l } })

    stored :
        (type : String)
        → is_kept type ≡ true
        → is_acceptable (next_id w.db) (from_buddy id (frame type)) w.db ≡ true
        → persist u (frame type) w ≡ (
          ok tt,
          record w { db = ended id (frame type) (appended (from_buddy id (frame type)) w.db) },
        )
    stored type kept fine = persist-calm u (frame type) id w calm kept parsed fine
