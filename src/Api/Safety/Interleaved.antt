-- ===== src/Api/Safety/Interleaved.antt =====
-- The requests of the server in flight together: each handler takes its statements, what it does to the
-- registry under the lock, and its frames one at a time, and the steps of others fall between them.
use clawgard.Prelude.{ℕ, ◌≡◌, refl, ap, ◌∙◌, List, [], ◌∷◌, map}
use clawgard.Exec.Respects.Pool.{in_turn, interleave, interleave-at, serial}
use clawgard.Store.History.{Advances, IsSound}
use clawgard.Router.Registry.Invariant.{IsValid}
use clawgard.Api.Http.{Uuid}
use clawgard.Api.World.{World}
use clawgard.Api.Safety.{Proceeds-order, IsWired}
use clawgard.Api.Safety.Requests.{Request, script_of, step, step-Runs, run}

-- The world after some steps of the requests: the list of indices says whose step is next.
pub interleaved : Uuid → List ℕ → List Request → World → World
interleaved u is rs w = (interleave is (map (script_of u) rs) w).1

-- However the steps of the handlers in flight fall between one another, and wherever one looks: threads
-- keep their asker and buddy, their turns do not fall, a closed thread stays closed with its reason, no
-- message changes or goes, and no buddy is deleted back. Tables that are sound at first stay sound (at
-- most 3 turns, a closing time exactly for closed threads, unique keys of threads, every message of a
-- thread), every waiter channel that is bounded and unshared stays so, and no connection's channel
-- grows past 16 frames.
pub interleaved_lem :
    (u : Uuid) (is : List ℕ) (rs : List Request) (w : World)
    → IsSound w.db
    → IsValid w.reg
    → IsWired w
    → Advances w.db (interleaved u is rs w).db
      × IsSound (interleaved u is rs w).db
      × IsValid (interleaved u is rs w).reg
      × IsWired (interleaved u is rs w)
unfolding interleaved
interleaved_lem u is rs w sound valid wired =
    let p = interleave-at Proceeds-order is (map (script_of u) rs) w in
    (p.db.advances, p.db.sound sound, p.reg valid, p.wires wired)

in_turn-eq-run :
    (u : Uuid) (rs : List Request) (w : World) → in_turn (map (script_of u) rs) w ≡ run u rs w
unfolding in_turn run
in_turn-eq-run u [] w = refl
in_turn-eq-run u (r ∷ rs) w =
    ap (in_turn (map (script_of u) rs)) ((step-Runs u r).means w) ∙ in_turn-eq-run u rs (step u r w)

-- Handlers that run one after another are one of the ways in which their steps may fall.
pub run-interleaved :
    (u : Uuid) (rs : List Request) (w : World)
    → (is : List ℕ) × (interleaved u is rs w ≡ run u rs w)
unfolding interleaved
run-interleaved u rs w =
    let (is, e) = serial (map (script_of u) rs) w in (is, e ∙ in_turn-eq-run u rs w)
