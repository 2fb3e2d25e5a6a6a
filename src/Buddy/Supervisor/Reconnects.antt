-- ===== src/Buddy/Supervisor/Reconnects.antt =====
-- When the supervisor of buddy-cli/internal/cli/supervisor.go connects again.
use clawgard.Prelude.{
  ℕ, suc, ℤ, ◌≡◌, refl, Bool, true, false, Option, none, some, List, [], ◌∷◌, arith, map,
}
use clawgard.Buddy.Backoff.{Backoff, next}
use clawgard.Buddy.Backoff.Delays.{after, delays}
use clawgard.Buddy.Supervisor.{
  InFrame, NetError, dial_failed, read_failed, Attempt, no_dial, connected, session_run, run_once,
  Stop, before, during, waiting, never, Round, Supervised, run_round, run_rounds, or_new,
  run_supervisor,
}

-- `Session.Run` ends with an error, whatever it read.
session_run-fails : (ms : List (Option InFrame)) → (session_run ms).1 ≡ some read_failed
unfolding session_run
session_run-fails [] = refl
session_run-fails (none ∷ ms) = session_run-fails ms
session_run-fails (some f ∷ ms) = session_run-fails ms

-- The rounds up to the end of the context: how many of them dial, how many begin to wait, and whether
-- the context ends.
abbrev pub dialing : List Stop → ℕ
dialing [] = 0
dialing (before ∷ rs) = 0
dialing (during ∷ rs) = 1
dialing (waiting ∷ rs) = 1
dialing (never ∷ rs) = suc (dialing rs)

abbrev pub reaching : List Stop → ℕ
reaching [] = 0
reaching (before ∷ rs) = 0
reaching (during ∷ rs) = 0
reaching (waiting ∷ rs) = 1
reaching (never ∷ rs) = suc (reaching rs)

abbrev pub ends : List Stop → Bool
ends [] = false
ends (before ∷ rs) = true
ends (during ∷ rs) = true
ends (waiting ∷ rs) = true
ends (never ∷ rs) = ends rs

run_once-fails : (a : Attempt) → (e : NetError) × ((run_once a).1 ≡ some e)
unfolding run_once
run_once-fails no_dial = (dial_failed, refl)
run_once-fails (connected ms) = (read_failed, session_run-fails ms)

abbrev stops : List Round → List Stop
stops rounds = map (λ (r : Round). r.stop) rounds

abbrev expected : List Stop → Backoff → Supervised
expected rs b = record {
  dials = dialing rs;
  waits = delays (reaching rs) b;
  backoff = after (reaching rs) b;
  returned = ends rs;
}

run_round-expected :
    (s : Stop) (a : Attempt) (b : Backoff) (rs : List Stop) (go_on : Backoff → Supervised)
    → ((b' : Backoff) → go_on b' ≡ expected rs b')
    → run_round s a b go_on ≡ expected (s ∷ rs) b
run_round-expected before a b rs go_on h = refl
run_round-expected during a b rs go_on h = refl
run_round-expected waiting a b rs go_on h = rw (run_once-fails a).1 refl
run_round-expected never a b rs go_on h = rw ((run_once-fails a).1, h (next b).1) (ground arith)

run_rounds-expected :
    (rounds : List Round) (b : Backoff) → run_rounds rounds b ≡ expected (stops rounds) b
unfolding run_rounds
run_rounds-expected [] b = refl
run_rounds-expected (r ∷ rs) b =
    run_round-expected r.stop r.attempt b (stops rs) (run_rounds rs) (run_rounds-expected rs)

-- The supervisor dials once in each round up to the end of its context, not in a round before which
-- that has come, and begins to wait after each attempt that returns before it; it returns when the
-- context ends. Only the number of such attempts decides how long it waits: the successive delays of
-- its backoff, also after a connection that was made and served frames.
pub run_supervisor-delays :
    (jitter : ℤ → ℤ) (bo : Option Backoff) (rounds : List Round)
    → let rs = map (λ (r : Round). r.stop) rounds in
      let b = or_new jitter bo in
      run_supervisor jitter bo rounds ≡ record {
        dials = dialing rs;
        waits = delays (reaching rs) b;
        backoff = after (reaching rs) b;
        returned = ends rs;
      }
unfolding run_supervisor
run_supervisor-delays jitter bo rounds = run_rounds-expected rounds (or_new jitter bo)
