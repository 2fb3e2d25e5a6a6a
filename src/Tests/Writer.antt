-- ===== src/Tests/Writer.antt =====
-- Examples for the session of the buddy's client.
use clawgard.Prelude.{◌≡◌, ◌⊎◌, refl, true, some, [], ◌∷◌, Comparable-ℕ, arith}
use clawgard.Buddy.Supervisor.{OutFrame}
use clawgard.Buddy.Session.{
  context_ended, offering, waiting, finished, WriteReq, Session, new_session, update, calls, queues,
  stops, shuts_down, Reach, here, after,
}
use clawgard.Buddy.Session.Abandoned.{abandoned_lem}

abbrev reply : OutFrame
reply = record { type = "answer"; thread_id = "t"; content = "yes"; reason = "" }

abbrev request : WriteReq
request = record { sender = 0; frame = reply }

abbrev asked : Session
asked = record new_session { pc = update new_session.pc 0 (offering reply) }

abbrev queued : Session
queued = record asked { writes = request ∷ []; pc = update asked.pc 0 waiting }

abbrev sent : Session
sent = record queued { writes = []; wire = request ∷ []; done = update queued.done 0 (some true) }

-- The request is queued in a session that has been closed, and the writer returns.
abbrev left : Session
left = record queued { closed = true; stopped = true }

to_left : Reach new_session left
to_left =
    after
      (after (after (after here (calls 0 reply refl)) shuts_down)
        (queues 0 reply refl (omega arith)))
      (stops refl refl)

abandoned_lem_example :
    ((left.pc 0 ≡ waiting) ⊎ (left.pc 0 ≡ finished context_ended)) × (left.wire ≡ left.wire)
abandoned_lem_example =
    abandoned_lem {s = left} {t = left} {i = 0} refl refl refl (after here shuts_down)
