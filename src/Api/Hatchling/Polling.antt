-- ===== src/Api/Hatchling/Polling.antt =====
-- How long the long poll of server/internal/api/hatchling.go lasts.
use clawgard.Prelude.{
  ℕ, zero, suc, ◌+◌, ◌*◌, ◌≤◌, ◌≡◌, refl, sym, subst, ap, ◌∙◌, Bool, true, false, ◌||◌, Option,
  none, some, String, find?, Comparable-ℕ, List, [], ◌∷◌, arith, ltb, if◌then◌else◌, All,
  Bool-cases, ◌⊎◌, inl, inr,
}
use clawgard.Exec.{Result, pure, leave, ◌>>=◌, ◌>>◌}
use clawgard.Store.Db.{Db, Message, Error, ThreadRow}
use clawgard.Store.Db.Calm.{statement-calm}
use clawgard.Store.Threads
use clawgard.Store.Threads.{Thread, get, has_id, select_thread, or_not_found}
use clawgard.Store.Threads.Turns.{get-calm}
use clawgard.Store.Messages.{list, list_since}
use clawgard.Api.Http.{internal, Response, Uuid, Identity}
use clawgard.Api.World.{serve, World, Handler, query}
use clawgard.Api.World.Steps.{query-step, reads-step}
use clawgard.Api.Hatchling.{
  Event, ticked, done, let_pass, has_messages, nothing_written, poll_round, long_poll, after_wait,
  thread_or_zero, wait_seconds, since_time, not_yours, thread_missing, hatchling_get_thread, second,
}
use clawgard.Api.World.Timing.{
  EndsBy, EndsBy-bind, Keeps-bind, Keeps-pure, Keeps-or_refuse, Keeps-guard, Keeps-query,
  Keeps-attempt, Within, Within-before, Within-after,
}

-- No tick takes longer than `n`.
abbrev pub IsTimely : ℕ → Event → Type 0
IsTimely n (ticked t) = t ≤ n
IsTimely n done = Unit {0}

read_only : {A : Type 0} (x : A × Db) (a : A) (db : Db) → x ≡ (a, db) → x ≡ (x.0, db)
read_only {A} x a db e = e ∙ ap (λ (y : A × Db). (y.0, db)) (sym e)

list_since-calm :
    (id since : ℕ) (db : Db)
    → db.schedule ≡ []
    → list_since id since db ≡ ((list_since id since db).0, db)
unfolding list_since
list_since-calm id since db calm =
    read_only (list_since id since db) _ db (statement-calm _ db calm)

pub poll_round-calm :
    (id since deadline : ℕ) (next : Handler (Unit {0})) (w : World)
    → w.db.schedule ≡ []
    → poll_round id since deadline next w
      ≡ (if has_messages (list_since id since w.db).0 || ltb deadline w.db.now
            then pure tt
            else next)
          w
unfolding poll_round
poll_round-calm id since deadline next w calm =
    query-step _ w (list_since id since) (list_since id since w.db).0 w.db
      (list_since-calm id since w.db calm)
    ∙ reads-step _ w (λ (v : World). v.db.now)

-- A round that ends leaves the time as it is, and one that goes on has not passed the deadline.
poll_round-time :
    (id since deadline m : ℕ) (next : Handler (Unit {0})) (w : World)
    → w.db.schedule ≡ []
    → w.db.now ≤ deadline + m
    → (w.db.now ≤ deadline → EndsBy (deadline + m) (next w))
    → EndsBy (deadline + m) (poll_round id since deadline next w)
poll_round-time id since deadline m next w calm early on =
    subst (λ (x : Result Response (Unit {0}) × World). EndsBy (deadline + m) x)
      (sym (poll_round-calm id since deadline next w calm))
      (by_test (has_messages (list_since id since w.db).0) (Bool-cases (ltb deadline w.db.now)))
  where
    by_test :
        (b : Bool)
        → (ltb deadline w.db.now ≡ true) ⊎ (ltb deadline w.db.now ≡ false)
        → EndsBy (deadline + m) ((if b || ltb deadline w.db.now then pure tt else next) w)
    by_test true _ = (calm, early)
    by_test false (inl late) = rw late (calm, early)
    by_test false (inr soon) = rw soon (on (ground arith))

long_poll-time :
    (id since deadline m : ℕ) (events : List Event) (w : World)
    → w.db.schedule ≡ []
    → All (IsTimely m) events
    → w.db.now ≤ deadline + m
    → EndsBy (deadline + m) (long_poll id since deadline events w)
unfolding long_poll ◌>>=◌
long_poll-time id since deadline m [] w calm timely early =
    poll_round-time id since deadline m (leave nothing_written) w calm early (λ h. (calm, early))
long_poll-time id since deadline m (done ∷ events) w calm timely early =
    poll_round-time id since deadline m (leave nothing_written) w calm early (λ h. (calm, early))
long_poll-time id since deadline m (ticked t ∷ events) w calm timely early =
    poll_round-time id since deadline m (let_pass t >> long_poll id since deadline events) w calm
      early
      λ h.
        long_poll-time id since deadline m events
          (record w { db = record w.db { now = w.db.now + t } }) calm timely.1
          (omega (arith, h, timely.0))

get-reads : (id : ℕ) (db : Db) → db.schedule ≡ [] → (Threads.get id db).1 ≡ db
unfolding select_thread
get-reads id db calm =
    ap (λ (x : Result Error Thread × Db). x.1) (get-calm id db calm)
    ∙ by_row (find? (has_id id) db.threads) refl
  where
    by_row :
        (o : Option ThreadRow)
        → find? (has_id id) db.threads ≡ o
        → (or_not_found (select_thread id db)).1 ≡ db
    by_row none e = rw (e, select_thread) refl
    by_row (some r) e = rw (e, select_thread) refl

list-reads : (id : ℕ) (db : Db) → db.schedule ≡ [] → (list id db).1 ≡ db
unfolding list
list-reads id db calm =
    ap (λ (x : Result Error (List Message) × Db). x.1) (statement-calm _ db calm)

after_wait-EndsBy :
    (n id since m : ℕ) (events : List Event) (th : Thread) (w : World)
    → w.db.schedule ≡ []
    → All (IsTimely m) events
    → EndsBy (w.db.now + n * second + m) (after_wait n id since events th w)
unfolding after_wait
after_wait-EndsBy zero id since m events th w calm timely = (calm, omega arith)
after_wait-EndsBy (suc n) id since m events th w calm timely =
    let t = w.db.now + suc n * second + m in
    subst (EndsBy t) (sym (reads-step _ w _)) (
      EndsBy-bind t (long_poll id since (w.db.now + suc n * second) events) _ w
        (long_poll-time id since (w.db.now + suc n * second) m events w calm timely (omega arith))
        λ _.
          Keeps-bind t (query (Threads.get id)) _ (Keeps-query t (Threads.get id) (get-reads id))
            (λ r. Keeps-pure t (thread_or_zero r)))

wait_seconds_bound : (wait : Option ℕ) → wait_seconds wait ≤ 55
wait_seconds_bound none = omega arith
wait_seconds_bound (some n) = ground arith

after_wait-Within :
    (s n id since m : ℕ) (events : List Event) (th : Thread)
    → n ≤ 55
    → All (IsTimely m) events
    → Within s (s + 55 * second + m) (after_wait n id since events th)
unfolding Within
after_wait-Within s n id since m events th le timely w calm early =
    let e = after_wait-EndsBy n id since m events th w calm timely in
    (e.0, omega (arith, e.1, le, early))

get_thread-Within :
    (u : Uuid) (ctx : Option Identity) (param : String) (wait since : Option ℕ)
    (events : List Event) (m s : ℕ)
    → All (IsTimely m) events
    → Within s (s + 55 * second + m) (hatchling_get_thread u ctx param wait since events)
unfolding hatchling_get_thread
get_thread-Within u ctx param wait since events m s timely =
    let t = s + 55 * second + m in
    Within-before s t _ _ (omega arith) (Keeps-or_refuse s _ _) λ id.
      Within-before s t _ _ (omega arith)
        (Keeps-attempt s (Threads.get id) thread_missing (get-reads id))
        λ th. Within-before s t _ _ (omega arith) (Keeps-guard s _ not_yours) λ _.
          Within-after s t _ _
            (after_wait-Within s (wait_seconds wait) id (since_time since) m events th
              (wait_seconds_bound wait) timely)
            λ th'.
              Keeps-bind t _ _ (Keeps-attempt t (list id) internal (list-reads id))
                λ msgs. Keeps-pure t _

-- A request to read a thread is over, while statements run at once, no later than 55 seconds and one tick
-- of the timer after it came, whatever the wait that it asks for.
pub hatchling_get_thread-bounded :
    (u : Uuid) (ctx : Option Identity) (param : String) (wait since : Option ℕ)
    (events : List Event) (m : ℕ) (w : World)
    → w.db.schedule ≡ []
    → All (IsTimely m) events
    → (serve (hatchling_get_thread u ctx param wait since events) w).1.db.now
      ≤ w.db.now + 55 * second + m
unfolding Within
hatchling_get_thread-bounded u ctx param wait since events m w calm timely =
    (get_thread-Within u ctx param wait since events m w.db.now timely w calm (omega arith)).1
