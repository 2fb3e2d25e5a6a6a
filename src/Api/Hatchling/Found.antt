-- ===== src/Api/Hatchling/Found.antt =====
-- A long poll of server/internal/api/hatchling.go that finds new messages at once.
use clawgard.Prelude.{
  ℕ, zero, suc, ◌+◌, ◌*◌, ◌≡◌, refl, ◌∙◌, true, List, [], ◌∷◌, ◌++◌, arith, order_by, insert_by,
  some, find?,
}
use clawgard.Exec.{ok, ◌>>=◌}
use clawgard.Store.Db.{Message, ThreadRow}
use clawgard.Store.Threads
use clawgard.Store.Threads.{Thread, scan_thread, has_id}
use clawgard.Store.Threads.Turns.{get-found}
use clawgard.Store.Messages.{older, list_since}
use clawgard.Api.World.{World, Handler}
use clawgard.Api.World.Steps.{query-step}
use clawgard.Api.Hatchling.{
  Event, ticked, done, has_messages, poll_round, long_poll, after_wait, second,
}
use clawgard.Api.Hatchling.Polling.{poll_round-calm}

has_messages-insert_by :
    (x : Message) (ms : List Message) → has_messages (ok (insert_by older x ms)) ≡ true
has_messages-insert_by x [] = refl
has_messages-insert_by x (y ∷ ms) = ground arith

pub has_messages-last :
    (m : Message) (ms : List Message) → has_messages (ok (order_by older (ms ++ m ∷ []))) ≡ true
has_messages-last m [] = refl
has_messages-last m (x ∷ ms) = has_messages-insert_by x (order_by older (ms ++ m ∷ []))

module _ (id since : ℕ) (row : ThreadRow) (w : World) (calm : w.db.schedule ≡ [])
    (new : has_messages (list_since id since w.db).0 ≡ true)
    (there : find? (has_id id) w.db.threads ≡ some row) where
  poll_round-found :
      (deadline : ℕ) (next : Handler (Unit {0})) → poll_round id since deadline next w ≡ (ok tt, w)
  poll_round-found deadline next = poll_round-calm id since deadline next w calm ∙ rw new refl

  long_poll-found :
      (deadline : ℕ) (events : List Event) → long_poll id since deadline events w ≡ (ok tt, w)
  unfolding long_poll
  long_poll-found deadline [] = poll_round-found deadline _
  long_poll-found deadline (done ∷ events) = poll_round-found deadline _
  long_poll-found deadline (ticked n ∷ events) = poll_round-found deadline _

  -- Whatever the wait, it is over at once, with the thread as it is.
  pub after_wait-found :
      (n : ℕ) (events : List Event)
      → after_wait n id since events (scan_thread row) w ≡ (ok (scan_thread row), w)
  unfolding after_wait ◌>>=◌
  after_wait-found zero events = refl
  after_wait-found (suc n) events = rw (long_poll-found (w.db.now + suc n * second) events) (
      query-step _ w (Threads.get id) (ok (scan_thread row)) w.db
        (get-found id row w.db calm there))
