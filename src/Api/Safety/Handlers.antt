-- ===== src/Api/Safety/Handlers.antt =====
-- The handlers of server/internal/api/hatchling.go, as steps of the world.
use clawgard.Prelude.{ℕ, zero, suc, String, Option, List, [], ◌∷◌, Comparable-ℕ}
use clawgard.Exec.{Result, ok, err}
use clawgard.Exec.Respects.{Respects-atom}
use clawgard.Store.Db.{Error, turn_cap_exceeded}
use clawgard.Store.Threads.{Thread}
use clawgard.Store.History.Operations.{
  open_thread-Sound, get-Sound, close-Sound, increment_turns-Sound, append-Sound, list-Sound,
  list_since-Sound,
}
use clawgard.Store.History.Accounts.{
  get_by_id-Sound, list_for_caller-Sound, list_all-Sound, touch_last_seen-Sound,
}
use clawgard.Api.Http.{Uuid, Identity}
use clawgard.Api.World.{Handler}
use clawgard.Api.Hatchling.{
  Event, ticked, done, let_pass, poll_round, long_poll, after_wait, turn_refused, or_turn_refused,
  OpenThreadReq, list_buddies, ask, hatchling_open_thread, hatchling_get_thread, clarify,
  hatchling_post_clarification, clear, hatchling_close_thread,
}
use clawgard.Store.History.{Evolves-order}
use clawgard.Store.History.Statements.{later-Evolves}
use clawgard.Router.Registry.Invariant.{clear_waiter-IsValid}
use clawgard.Api.Safety.{IsSafe, safe_rules, pure-IsSafe, leave-IsSafe, bind-IsSafe}

pub ruleset store_rules = (
  open_thread-Sound, get-Sound, close-Sound, increment_turns-Sound, append-Sound, list-Sound,
  list_since-Sound, get_by_id-Sound, list_for_caller-Sound, list_all-Sound, touch_last_seen-Sound,
)

pub list_buddies-IsSafe : (u : Uuid) (ctx : Option Identity) → IsSafe (list_buddies u ctx)
unfolding list_buddies
list_buddies-IsSafe u ctx = search (safe_rules, store_rules) depth 10

ask-IsSafe : (u : Uuid) (id : Identity) (b : ℕ) (q : String) → IsSafe (ask u id b q)
unfolding ask
ask-IsSafe u id b q = search (safe_rules, store_rules) depth 20

pub hatchling_open_thread-IsSafe :
    (u : Uuid) (ctx : Option Identity) (body : Option OpenThreadReq)
    → IsSafe (hatchling_open_thread u ctx body)
unfolding hatchling_open_thread
hatchling_open_thread-IsSafe u ctx body = search (safe_rules, store_rules, ask-IsSafe) depth 20

let_pass-IsSafe : (n : ℕ) → IsSafe (let_pass n)
let_pass-IsSafe n =
    Respects-atom _
      (λ w. record { db = later-Evolves w.db w.db.schedule n; reg = λ v. v; wires = λ b. b })

poll_round-IsSafe :
    (id since deadline : ℕ) (next : Handler (Unit {0}))
    → IsSafe next
    → IsSafe (poll_round id since deadline next)
unfolding poll_round
poll_round-IsSafe id since deadline next h = search (safe_rules, store_rules) depth 10

long_poll-IsSafe :
    (id since deadline : ℕ) (events : List Event) → IsSafe (long_poll id since deadline events)
unfolding long_poll
long_poll-IsSafe id since deadline [] = poll_round-IsSafe id since deadline _ (leave-IsSafe _)
long_poll-IsSafe id since deadline (done ∷ events) =
    poll_round-IsSafe id since deadline _ (leave-IsSafe _)
long_poll-IsSafe id since deadline (ticked n ∷ events) =
    poll_round-IsSafe id since deadline _
      (bind-IsSafe _ _ (let_pass-IsSafe n) λ _. long_poll-IsSafe id since deadline events)

after_wait-IsSafe :
    (n id since : ℕ) (events : List Event) (th : Thread) → IsSafe (after_wait n id since events th)
unfolding after_wait
after_wait-IsSafe zero id since events th = pure-IsSafe th
after_wait-IsSafe (suc n) id since events th =
    search (safe_rules, store_rules, long_poll-IsSafe) depth 10

pub hatchling_get_thread-IsSafe :
    (u : Uuid) (ctx : Option Identity) (param : String) (wait since : Option ℕ)
    (events : List Event)
    → IsSafe (hatchling_get_thread u ctx param wait since events)
unfolding hatchling_get_thread
hatchling_get_thread-IsSafe u ctx param wait since events =
    search (safe_rules, store_rules, after_wait-IsSafe) depth 20

turn_refused-IsSafe : (id : ℕ) (e : Error) → IsSafe (turn_refused id e)
unfolding turn_refused
turn_refused-IsSafe id (turn_cap_exceeded n) = search (safe_rules, store_rules)
turn_refused-IsSafe id e = leave-IsSafe _

or_turn_refused-IsSafe : (id : ℕ) (r : Result Error ℕ) → IsSafe (or_turn_refused id r)
or_turn_refused-IsSafe id (ok n) = pure-IsSafe n
or_turn_refused-IsSafe id (err e) = turn_refused-IsSafe id e

clarify-IsSafe :
    (u : Uuid) (id : Identity) (th : Thread) (t : ℕ) (c : String) → IsSafe (clarify u id th t c)
unfolding clarify
clarify-IsSafe u id th t c = search (safe_rules, store_rules, or_turn_refused-IsSafe) depth 20

pub hatchling_post_clarification-IsSafe :
    (u : Uuid) (ctx : Option Identity) (param : String) (body : Option String)
    → IsSafe (hatchling_post_clarification u ctx param body)
unfolding hatchling_post_clarification
hatchling_post_clarification-IsSafe u ctx param body =
    search (safe_rules, store_rules, clarify-IsSafe) depth 20

clear-IsSafe : (u : Uuid) (id : ℕ) → IsSafe (clear u id)
clear-IsSafe u id = Respects-atom _ (λ w. record {
  db = Evolves-order.same w.db;
  reg = λ v. clear_waiter-IsValid w.reg v (u.print id);
  wires = λ b. b;
})

pub hatchling_close_thread-IsSafe :
    (u : Uuid) (ctx : Option Identity) (param : String)
    → IsSafe (hatchling_close_thread u ctx param)
unfolding hatchling_close_thread
hatchling_close_thread-IsSafe u ctx param = search (safe_rules, store_rules, clear-IsSafe) depth 20
