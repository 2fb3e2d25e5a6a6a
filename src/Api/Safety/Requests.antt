-- ===== src/Api/Safety/Requests.antt =====
-- All requests of the server together: a request is one handler with its input, and the sweeper.
use clawgard.Prelude.{ℕ, ℤ, ◌+◌, String, Option, List, [], ◌∷◌, minus}
use clawgard.Exec.{Result, ok, err}
use clawgard.Exec.Respects.{
  Script, Respects-pure, Respects-leave, Respects-reads, Respects-then, Respects-atom,
}
use clawgard.Exec.Respects.Pool.{Runs, Runs-at, Respects-Runs}
use clawgard.Store.Db.{Tick, Error, Sql}
use clawgard.Store.Threads.{Thread, list_idle_open}
use clawgard.Store.Buddies.{UpdateBuddy}
use clawgard.Store.Filter.{ListFilter}
use clawgard.Store.History.{Advances, IsSound, Evolves, Evolves-order}
use clawgard.Store.History.Statements.{Sound, later-Evolves}
use clawgard.Store.History.Operations.{close-Sound, list_idle_open-Sound}
use clawgard.Router.Registry.{OutFrame}
use clawgard.Router.Registry.Invariant.{IsValid}
use clawgard.Sweeper.{close_all, swept, run_once}
use clawgard.Api.Http.{Uuid, Identity, Response}
use clawgard.Api.World.{World, Handler, query}
use clawgard.Api.Hatchling.{
  Event, OpenThreadReq, list_buddies, hatchling_open_thread, hatchling_get_thread,
  hatchling_post_clarification, hatchling_close_thread,
}
use clawgard.Api.BuddyWs.{Bcrypt, Accept, connect, on_message, disconnect}
use clawgard.Api.Admin.{
  Keygen, CreateBuddyRequest, require_admin, admin_create_buddy, admin_list_buddies,
  admin_update_buddy, admin_rotate_buddy_key, admin_delete_buddy, admin_get_thread,
  admin_list_threads,
}
use clawgard.Api.Device.{handle_device_initiate, handle_device_token}
use clawgard.Api.Safety.{IsSafe, query-IsSafe, Proceeds, Proceeds-order, IsWired}
use clawgard.Router.Registry.Invariant.{IsValid}
use clawgard.Api.Safety.Handlers.{
  list_buddies-IsSafe, hatchling_open_thread-IsSafe, hatchling_get_thread-IsSafe,
  hatchling_post_clarification-IsSafe, hatchling_close_thread-IsSafe,
}
use clawgard.Api.Safety.Connections.{connect-IsSafe, on_message-IsSafe, disconnect-IsSafe}
use clawgard.Api.Safety.Admins.{
  require_admin-IsSafe, admin_create_buddy-IsSafe, admin_list_buddies-IsSafe,
  admin_update_buddy-IsSafe, admin_rotate_buddy_key-IsSafe, admin_delete_buddy-IsSafe,
  admin_get_thread-IsSafe, admin_list_threads-IsSafe,
}
use clawgard.Api.Safety.Devices.{handle_device_initiate-IsSafe, handle_device_token-IsSafe}

pub data AdminRequest : Type 0 where
  creates : Keygen → Option CreateBuddyRequest → AdminRequest
  lists_buddies : AdminRequest
  updates : String → Option UpdateBuddy → AdminRequest
  rotates : Keygen → String → AdminRequest
  deletes : String → AdminRequest
  gets : String → AdminRequest
  lists_threads : ListFilter → AdminRequest

pub data Request : Type 0 where
  list_for : Option Identity → Request
  opens : Option Identity → Option OpenThreadReq → Request
  polls : Option Identity → String → Option ℕ → Option ℕ → List Event → Request
  clarifies : Option Identity → String → Option String → Request
  closes : Option Identity → String → Request
  administers : Option Identity → AdminRequest → Request
  initiates : String → String → List ℕ → Request
  redeems : String → Option String → Request
  -- the events of a buddy's connection
  connects : Bcrypt → Accept → ℕ → String → Request
  receives : ℕ → Option OutFrame → Request
  disconnects : ℕ → ℕ → Request
  -- a round of the sweeper, and time that passes with a new schedule of outcomes
  sweeps : ℤ → Request
  waits : ℕ → List Tick → Request

unfoldable pub administer : Uuid → Option Identity → AdminRequest → Handler Response
administer u ctx (creates k body) = admin_create_buddy u k ctx body
administer u ctx lists_buddies = admin_list_buddies u
administer u ctx (updates param body) = admin_update_buddy u param body
administer u ctx (rotates k param) = admin_rotate_buddy_key u k param
administer u ctx (deletes param) = admin_delete_buddy u param
administer u ctx (gets param) = admin_get_thread u param
administer u ctx (lists_threads f) = admin_list_threads u f

-- The world after a request.
unfoldable pub step : Uuid → Request → World → World
step u (list_for ctx) w = (list_buddies u ctx w).1
step u (opens ctx body) w = (hatchling_open_thread u ctx body w).1
step u (polls ctx param wait since events) w =
    (hatchling_get_thread u ctx param wait since events w).1
step u (clarifies ctx param body) w = (hatchling_post_clarification u ctx param body w).1
step u (closes ctx param) w = (hatchling_close_thread u ctx param w).1
step u (administers ctx req) w = (require_admin ctx (administer u ctx req) w).1
step u (initiates uri code user) w = (handle_device_initiate uri code user w).1
step u (redeems fresh body) w = (handle_device_token fresh body w).1
step u (connects matches accept conn authz) w = (connect matches accept conn authz w).1
step u (receives buddy m) w = (on_message u buddy m w).1
step u (disconnects buddy gen) w = (disconnect buddy gen w).1
step u (sweeps idle) w = record w { db = run_once idle w.db }
step u (waits n schedule) w = record w {
  db = record w.db { now = w.db.now + n; schedule = schedule };
}

abbrev waited : ℕ → List Tick → Handler (Unit {0})
waited n schedule w =
    (ok tt, record w { db = record w.db { now = w.db.now + n; schedule = schedule } })

unfoldable pub run : Uuid → List Request → World → World
run u [] w = w
run u (r ∷ rs) w = run u rs (step u r w)

close_all-Sound : (ths : List Thread) → Sound (λ db. (ok tt, close_all ths db))
unfolding close_all
close_all-Sound [] = Respects-pure Evolves tt
close_all-Sound (th ∷ ths) =
    Respects-then _ (λ _ db. (ok tt, close_all ths db)) (close-Sound th.id "idle_timeout")
      (λ _. close_all-Sound ths)

swept-Sound : (r : Result Error (List Thread)) → Sound (λ db. (ok tt, swept r db))
swept-Sound (ok ths) = close_all-Sound ths
swept-Sound (err e) = Respects-pure Evolves tt

abbrev sweep_at : ℤ → Result Error ℕ → Sql (Unit {0})
sweep_at idle (ok now) db =
    let (r, db') = list_idle_open (minus now idle) db in (ok tt, swept r db')
sweep_at idle (err e) db = (err e, db)

sweep_at-Sound : (idle : ℤ) (r : Result Error ℕ) → Sound (sweep_at idle r)
sweep_at-Sound idle (ok now) =
    Respects-then _ (λ r db. (ok tt, swept r db)) (list_idle_open-Sound (minus now idle))
      swept-Sound
sweep_at-Sound idle (err e) = Respects-leave Evolves e

-- The clock, the SELECT and each close are steps of their own.
run_once-Sound : (idle : ℤ) → Sound (λ db. (ok tt, run_once idle db))
unfolding run_once
run_once-Sound idle =
    Respects-then _ (sweep_at idle) (Respects-reads Evolves Evolves-order (λ db. db.now))
      (sweep_at-Sound idle)

administer-IsSafe :
    (u : Uuid) (ctx : Option Identity) (req : AdminRequest) → IsSafe (administer u ctx req)
unfolding administer
administer-IsSafe u ctx (creates k body) = admin_create_buddy-IsSafe u k ctx body
administer-IsSafe u ctx lists_buddies = admin_list_buddies-IsSafe u
administer-IsSafe u ctx (updates param body) = admin_update_buddy-IsSafe u param body
administer-IsSafe u ctx (rotates k param) = admin_rotate_buddy_key-IsSafe u k param
administer-IsSafe u ctx (deletes param) = admin_delete_buddy-IsSafe u param
administer-IsSafe u ctx (gets param) = admin_get_thread-IsSafe u param
administer-IsSafe u ctx (lists_threads f) = admin_list_threads-IsSafe u f

-- The steps of a request's handler.
pub step-Runs : (u : Uuid) (r : Request) → Runs Response Proceeds (step u r)
unfolding step query
step-Runs u (list_for ctx) = Respects-Runs _ (list_buddies-IsSafe u ctx)
step-Runs u (opens ctx body) = Respects-Runs _ (hatchling_open_thread-IsSafe u ctx body)
step-Runs u (polls ctx param wait since events) =
    Respects-Runs _ (hatchling_get_thread-IsSafe u ctx param wait since events)
step-Runs u (clarifies ctx param body) =
    Respects-Runs _ (hatchling_post_clarification-IsSafe u ctx param body)
step-Runs u (closes ctx param) = Respects-Runs _ (hatchling_close_thread-IsSafe u ctx param)
step-Runs u (administers ctx req) =
    Respects-Runs _ (require_admin-IsSafe ctx _ (administer-IsSafe u ctx req))
step-Runs u (initiates uri code user) =
    Respects-Runs _ (handle_device_initiate-IsSafe uri code user)
step-Runs u (redeems fresh body) = Respects-Runs _ (handle_device_token-IsSafe fresh body)
step-Runs u (connects matches accept conn authz) =
    Respects-Runs _ (connect-IsSafe matches accept conn authz)
step-Runs u (receives buddy m) = Respects-Runs _ (on_message-IsSafe u buddy m)
step-Runs u (disconnects buddy gen) = Respects-Runs _ (disconnect-IsSafe buddy gen)
step-Runs u (sweeps idle) = Respects-Runs _ (query-IsSafe _ (run_once-Sound idle))
step-Runs u (waits n schedule) = Respects-Runs _ (
    Respects-atom (waited n schedule)
      (λ w. record { db = later-Evolves w.db schedule n; reg = λ v. v; wires = λ b. b }))

abbrev pub script_of : Uuid → Request → Script Response Proceeds (Unit {0})
script_of u r = (step-Runs u r).script

step-Proceeds : (u : Uuid) (r : Request) (w : World) → Proceeds w (step u r w)
step-Proceeds u r w = Runs-at Proceeds-order (step-Runs u r) w

run-Proceeds : (u : Uuid) (rs : List Request) (w : World) → Proceeds w (run u rs w)
unfolding run
run-Proceeds u [] w = Proceeds-order.same w
run-Proceeds u (r ∷ rs) w =
    Proceeds-order.next w (step u r w) (run u rs (step u r w)) (step-Proceeds u r w)
      (run-Proceeds u rs (step u r w))

-- Whatever requests come, in whatever order and with whatever outcomes of their statements: threads
-- keep their asker and buddy, their turns do not fall, a closed thread stays closed with its reason,
-- no message changes or goes, and no buddy is deleted back. Tables that are sound at first stay sound
-- (at most 3 turns, a closing time exactly for closed threads, unique keys of threads, every message of
-- a thread), every waiter channel that is bounded and unshared stays so, and no connection's channel
-- grows past 16 frames.
pub run_lem :
    (u : Uuid) (rs : List Request) (w : World)
    → IsSound w.db
    → IsValid w.reg
    → IsWired w
    → Advances w.db (run u rs w).db
      × IsSound (run u rs w).db
      × IsValid (run u rs w).reg
      × IsWired (run u rs w)
run_lem u rs w sound valid wired =
    let p = run-Proceeds u rs w in (p.db.advances, p.db.sound sound, p.reg valid, p.wires wired)
