-- ===== src/Api/Hatchling.antt =====
-- server/internal/api/hatchling.go. A request's body and query come decoded: `none` is a body that
-- does not decode, or a parameter that is absent or does not parse.
pub mod Access
pub mod Answered
pub mod Asked
pub mod Ending
pub mod Found
pub mod Opening
pub mod Polling
pub mod Turns
use clawgard.Prelude.{
  ℕ, zero, suc, ◌+◌, ◌*◌, String, Bool, true, false, not, ◌&&◌, ◌||◌, Option, none, some, List, [],
  ◌∷◌, map, ltb, leb, ◌==◌, Comparable-ℕ, Comparable-String, if◌then◌else◌,
}
use clawgard.Exec.{Result, ok, err, Exec, pure, leave, reads, guard, ◌>>=◌, ◌>>◌}
use clawgard.Store.Db.{Db, Error, buddy_not_found, turn_cap_exceeded, Message, Sql}
use clawgard.Store.Threads
use clawgard.Store.Threads.{Thread, zero_thread, open_thread, increment_turns, close, is_open}
use clawgard.Store.Buddies.{get_by_id, list_for_caller}
use clawgard.Store.Messages.{NewMessage, append, list, list_since}
use clawgard.Router.Registry.{InFrame, online, clear_waiter}
use clawgard.Api.Http.{
  Uuid, Identity, identity_or_zero, Response, respond, write_error, internal, says, cause, empty,
  thread, buddies, to_thread_resp, to_buddy_resp,
}
use clawgard.Api.World.{World, Handler, query, attempt, or_refuse, send}
use clawgard.Api.Acl.{acl_allows}

pub record OpenThreadReq : Type 0 where
  pub buddy_id : String
  pub question : String

abbrev pub bad_request : String → Response
bad_request msg = write_error 400 "bad_request" (says msg)

abbrev pub thread_missing : Error → Response
thread_missing e = write_error 404 "not_found" (says "thread not found")

abbrev pub not_yours : Response
not_yours = write_error 403 "forbidden" (says "not your thread")

abbrev pub buddy_offline : String → Response
buddy_offline msg = write_error 503 "buddy_offline" (says msg)

-- `errors.Is(err, store.ErrBuddyNotFound)`
abbrev pub buddy_error : Error → Response
buddy_error buddy_not_found = write_error 404 "not_found" (says "buddy not found")
buddy_error e = internal e

-- What a waiting request meets between two polls: a tick after some time, or the end of its context.
pub data Event : Type 0 where
  ticked : ℕ → Event
  done : Event

abbrev pub let_pass : ℕ → Handler (Unit {0})
let_pass n w = (ok tt, record w { db = record w.db { now = w.db.now + n } })

abbrev pub has_messages : Result Error (List Message) → Bool
has_messages (ok (m ∷ ms)) = true
has_messages (ok []) = false
has_messages (err e) = false

-- The request is gone and nothing is written; net/http sends 200 with no body.
abbrev pub nothing_written : Response
nothing_written = respond 200 empty

-- One round of the long poll: new messages or a passed deadline end it, `next` waits otherwise.
unfoldable pub poll_round : ℕ → ℕ → ℕ → Handler (Unit {0}) → Handler (Unit {0})
poll_round id since deadline next = do
  msgs ← query (list_since id since)
  now ← reads (λ (w : World). w.db.now)
  if has_messages msgs || ltb deadline now then pure tt else next

-- When the events are used up the client has gone.
unfoldable pub long_poll : ℕ → ℕ → ℕ → List Event → Handler (Unit {0})
unfolding poll_round
long_poll id since deadline [] = poll_round id since deadline (leave nothing_written)
long_poll id since deadline (done ∷ events) = poll_round id since deadline (leave nothing_written)
long_poll id since deadline (ticked n ∷ events) =
    poll_round id since deadline (let_pass n >> long_poll id since deadline events)

-- `n > 0 && n <= 55`; a parameter that is absent or no number is 0.
abbrev pub wait_seconds : Option ℕ → ℕ
wait_seconds none = 0
wait_seconds (some n) = if leb n 55 then n else 0

abbrev pub since_time : Option ℕ → ℕ
since_time none = 0
since_time (some t) = t

abbrev pub second : ℕ
second = 1_000_000_000

abbrev pub thread_or_zero : Result Error Thread → Thread
thread_or_zero (ok t) = t
thread_or_zero (err e) = zero_thread

-- The thread as it is after the wait, if there is one.
unfoldable pub after_wait : ℕ → ℕ → ℕ → List Event → Thread → Handler Thread
unfolding long_poll
after_wait zero id since events th = pure th
after_wait (suc n) id since events th = do
  now ← reads (λ (w : World). w.db.now)
  long_poll id since (now + suc n * second) events
  r ← query (Threads.get id)
  pure (thread_or_zero r)

-- `errors.Is(err, store.ErrTurnCapExceeded)` closes the thread; its error is dropped.
unfoldable pub turn_refused : ℕ → Error → Handler ℕ
turn_refused id (turn_cap_exceeded n) = do
  query (close id "turn_cap_reached")
  leave (write_error 409 "turn_cap_exceeded" (says "clarification turns exhausted"))
turn_refused id e = leave (internal e)

abbrev pub or_turn_refused : ℕ → Result Error ℕ → Handler ℕ
or_turn_refused id (ok n) = pure n
or_turn_refused id (err e) = turn_refused id e

module _ (u : Uuid) where
  unfoldable pub list_buddies : Option Identity → Handler Response
  list_buddies ctx = do
    id ← or_refuse ctx (write_error 401 "unauthorized" (says "no identity"))
    found ← attempt (list_for_caller id.email id.groups) internal
    pure (respond 200 (buddies (map (to_buddy_resp u) found)))

  abbrev pub question_frame : String → String → ℕ → String → InFrame
  question_frame type email id content = record {
    type = type;
    thread_id = u.print id;
    content = content;
    asker_email = email;
  }

  abbrev pub from_hatchling : String → ℕ → String → NewMessage
  from_hatchling type id content = record {
    thread_id = id;
    role = "hatchling";
    type = type;
    content = content;
  }

  -- From the insertion of the thread on, all checks passed.
  unfoldable pub ask : Identity → ℕ → String → Handler Response
  ask id buddy question = do
    th ← attempt (open_thread buddy id.email) internal
    attempt (append (from_hatchling "question" th.id question)) internal
    attempt (increment_turns th.id) internal
    sent ← send buddy (question_frame "question" id.email th.id question)
    guard sent (buddy_offline "buddy dropped")
    pure (respond 201 (thread (to_thread_resp u th [])))

  unfoldable pub hatchling_open_thread : Option Identity → Option OpenThreadReq → Handler Response
  unfolding ask
  hatchling_open_thread ctx body = do
    let id = identity_or_zero ctx
    req ← or_refuse body (bad_request "malformed json")
    buddy_id ← or_refuse (u.parse req.buddy_id) (bad_request "bad buddyId")
    guard (not (req.question == "")) (bad_request "question required")
    found ← attempt (get_by_id buddy_id) buddy_error
    guard (acl_allows found.acl id)
        (write_error 403 "forbidden" (says "not allowed to ask this buddy"))
    on ← reads (λ (w : World). online found.id w.reg)
    guard on (buddy_offline "buddy is not currently online")
    ask id found.id req.question

  unfoldable pub hatchling_get_thread :
      Option Identity → String → Option ℕ → Option ℕ → List Event → Handler Response
  unfolding after_wait
  hatchling_get_thread ctx param wait since events = do
    let id = identity_or_zero ctx
    thread_id ← or_refuse (u.parse param) (bad_request "bad id")
    th ← attempt (Threads.get thread_id) thread_missing
    guard (th.hatchling_email == id.email || id.admin) not_yours
    th' ← after_wait (wait_seconds wait) thread_id (since_time since) events th
    msgs ← attempt (list thread_id) internal
    pure (respond 200 (thread (to_thread_resp u th' msgs)))

  -- From the increment of the turns on, all checks passed.
  unfoldable pub clarify : Identity → Thread → ℕ → String → Handler Response
  unfolding turn_refused
  clarify id th thread_id content = do
    r ← query (increment_turns thread_id)
    or_turn_refused thread_id r
    attempt (append (from_hatchling "clarification" thread_id content)) internal
    sent ← send th.buddy_id (question_frame "clarification" id.email thread_id content)
    guard sent (buddy_offline "buddy dropped")
    pure (respond 202 empty)

  unfoldable pub hatchling_post_clarification :
      Option Identity → String → Option String → Handler Response
  unfolding clarify
  hatchling_post_clarification ctx param body = do
    let id = identity_or_zero ctx
    thread_id ← or_refuse (u.parse param) (bad_request "bad id")
    content ← or_refuse body (bad_request "content required")
    guard (not (content == "")) (bad_request "content required")
    th ← attempt (Threads.get thread_id) thread_missing
    guard (th.hatchling_email == id.email) not_yours
    guard (th.status == "open") (write_error 409 "conflict" (says "thread closed"))
    clarify id th thread_id content

  abbrev pub close_frame : ℕ → InFrame
  close_frame id = record { type = "close"; thread_id = u.print id; content = ""; asker_email = "" }

  abbrev pub clear : ℕ → Handler (Unit {0})
  clear id w = (ok tt, record w { reg = clear_waiter (u.print id) w.reg })

  -- The errors of the close and of the send are dropped.
  unfoldable pub end_thread : Thread → ℕ → Handler Response
  end_thread th thread_id = do
    query (close thread_id "hatchling_closed")
    send th.buddy_id (close_frame thread_id)
    clear thread_id
    pure (respond 204 empty)

  unfoldable pub hatchling_close_thread : Option Identity → String → Handler Response
  unfolding end_thread
  hatchling_close_thread ctx param = do
    let id = identity_or_zero ctx
    thread_id ← or_refuse (u.parse param) (bad_request "bad id")
    th ← attempt (Threads.get thread_id) thread_missing
    guard (th.hatchling_email == id.email || id.admin) not_yours
    end_thread th thread_id
