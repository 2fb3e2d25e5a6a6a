-- ===== src/Tests/Flight.antt =====
-- Examples with several requests in flight.
use clawgard.Prelude.{◌≡◌, ◌≤◌, refl, ℕ, List, [], ◌∷◌, pos, some, length}
use clawgard.Exec.{ok}
use clawgard.Store.Db.{Db, statement}
use clawgard.Store.Threads.{update_turns, increment_turns, max_turns}
use clawgard.Store.Threads.Cap.{Increments, quiet, counted, Increments-bounded}
use clawgard.Store.History.{Advances, IsSound, Evolves-order}
use clawgard.Router.Registry.Invariant.{IsValid}
use clawgard.Api.Safety.{IsWired}
use clawgard.Api.Safety.Requests.{Request, opens, clarifies, closes, receives, sweeps}
use clawgard.Api.Safety.Interleaved.{interleaved, interleaved_lem}
use clawgard.Api.Hatchling.{OpenThreadReq}
use clawgard.Tests.Fixtures.{
  keys, db, unique, db-IsSound, registry-IsValid, world-IsWired, world, ana, bob, answer_frame,
}

abbrev asked : OpenThreadReq
asked = record { buddy_id = "z"; question = "why" }

abbrev in_flight : List Request
in_flight =
    opens ana (some asked)
    ∷ clarifies ana "a" (some "more")
    ∷ clarifies ana "a" (some "and more")
    ∷ receives 7 (some answer_frame)
    ∷ closes bob "b"
    ∷ sweeps (pos 50)
    ∷ []

-- The two clarifications run side by side, and the sweeper between them.
abbrev order : List ℕ
order = 1 ∷ 2 ∷ 1 ∷ 2 ∷ 5 ∷ 1 ∷ 2 ∷ 5 ∷ 5 ∷ 1 ∷ 2 ∷ 0 ∷ 3 ∷ 0 ∷ 3 ∷ 4 ∷ 1 ∷ 2 ∷ []

interleaved_lem_example :
    Advances db (interleaved keys order in_flight world).db
    × IsSound (interleaved keys order in_flight world).db
    × IsValid (interleaved keys order in_flight world).reg
    × IsWired (interleaved keys order in_flight world)
interleaved_lem_example =
    interleaved_lem keys order in_flight world db-IsSound registry-IsValid world-IsWired

abbrev once : Db
unfolding increment_turns
once = (increment_turns 10 db).1

abbrev twice : Db
unfolding increment_turns
twice = (increment_turns 10 once).1

first : increment_turns 10 db ≡ (ok 2, once)
unfolding once increment_turns statement update_turns
first = refl

second : increment_turns 10 once ≡ (ok 3, twice)
unfolding once twice increment_turns statement update_turns
second = refl

two_counted : Increments 10 db (2 ∷ 3 ∷ [])
unfolding once twice increment_turns statement update_turns
two_counted =
    counted {db = db} {db' = once} {d = once} {n = 2} unique first
      (Evolves-order.same once).advances
      (counted {db = once} {db' = twice} {d = twice} {n = 3} (refl, (refl, (refl, tt))) second
        (Evolves-order.same twice).advances quiet)

Increments-bounded_example : length {A = ℕ} (2 ∷ 3 ∷ []) ≤ max_turns
Increments-bounded_example = Increments-bounded two_counted
