-- ===== src/Buddy/Supervisor.antt =====
-- buddy-cli/internal/cli/supervisor.go, with `Session.Run` of buddy-cli/internal/client/session.go
-- and `Client.Dial` of client.go. What the network does, and when the
-- context ends, is a list of rounds.
pub mod Reconnects
use clawgard.Prelude.{
  ℕ, ◌+◌, ◌*◌, ℤ, pos, String, Bool, true, false, not, ◌&&◌, ◌||◌, Option, none, some, List, [],
  ◌∷◌, ◌++◌, ◌==◌, Comparable-ℕ, Comparable-String, if◌then◌else◌,
}
use clawgard.Exec.{Result, ok, err}
use clawgard.Buddy.Backoff.{Backoff, second, new_backoff, next, reset}
use clawgard.Buddy.Hook
use clawgard.Buddy.Hook.{Question, HookError, invalid_response, run, Process}

pub record InFrame : Type 0 where
  pub type : String
  pub thread_id : String
  pub content : String
  pub asker_email : String
  pub reason : String

pub record OutFrame : Type 0 where
  pub type : String
  pub thread_id : String
  pub content : String
  pub reason : String

pub data NetError : Type 0 where
  dial_failed read_failed : NetError

-- A dial that fails, or a connection: the messages read from it, `none` for one that does not
-- decode, until a read fails.
pub data Attempt : Type 0 where
  no_dial : Attempt
  connected : List (Option InFrame) → Attempt

-- `Session.Run`: the frames that are dispatched, and the error that ends the loop.
unfoldable pub session_run : List (Option InFrame) → List InFrame × Option NetError
session_run [] = ([], some read_failed)
session_run (none ∷ ms) = session_run ms
session_run (some f ∷ ms) = let (fs, e) = session_run ms in (f ∷ fs, e)

unfoldable pub run_once : Attempt → List InFrame × Option NetError
unfolding session_run
run_once no_dial = ([], some dial_failed)
run_once (connected ms) = session_run ms

-- When the context of the supervisor ends, in a round of its loop: before it dials, before `runOnce`
-- returns, while it waits, or not in this round.
pub data Stop : Type 0 where
  before during waiting never : Stop

pub record Round : Type 0 where
  pub attempt : Attempt
  pub stop : Stop

-- How often it has dialed, the waits that it has begun, its backoff, and whether it has returned.
pub record Supervised : Type 0 where
  pub dials : ℕ
  pub waits : List ℤ
  pub backoff : Backoff
  pub returned : Bool

abbrev pub stopped : Bool → Backoff → Supervised
stopped returned b = record { dials = 0; waits = []; backoff = b; returned = returned }

abbrev pub dialed : Supervised → Supervised
dialed s = record s { dials = s.dials + 1 }

abbrev pub waited : ℤ → Supervised → Supervised
waited d s = record s { waits = d ∷ s.waits }

-- What follows `runOnce`, with its error.
abbrev pub after_run : Stop → Option NetError → Backoff → (Backoff → Supervised) → Supervised
after_run during e b go_on = stopped true b
after_run before e b go_on = stopped true b
after_run waiting none b go_on = go_on (reset b)
after_run waiting (some e) b go_on = waited (next b).0 (stopped true (next b).1)
after_run never none b go_on = go_on (reset b)
after_run never (some e) b go_on = waited (next b).0 (go_on (next b).1)

abbrev pub run_round : Stop → Attempt → Backoff → (Backoff → Supervised) → Supervised
run_round before a b go_on = stopped true b
run_round during a b go_on = dialed (after_run during (run_once a).1 b go_on)
run_round waiting a b go_on = dialed (after_run waiting (run_once a).1 b go_on)
run_round never a b go_on = dialed (after_run never (run_once a).1 b go_on)

unfoldable pub run_rounds : List Round → Backoff → Supervised
unfolding run_once
run_rounds [] b = stopped false b
run_rounds (r ∷ rs) b = run_round r.stop r.attempt b (λ b'. run_rounds rs b')

-- `RunSupervisor`, whose own backoff is from 1 to 30 seconds with a jitter.
abbrev pub or_new : (ℤ → ℤ) → Option Backoff → Backoff
or_new jitter none =
    new_backoff
      (record { initial = pos (1 * second); max = pos (30 * second); jitter = some jitter })
or_new jitter (some b) = b

unfoldable pub run_supervisor : (ℤ → ℤ) → Option Backoff → List Round → Supervised
unfolding run_rounds
run_supervisor jitter bo rounds = run_rounds rounds (or_new jitter bo)

abbrev pub turn_of : String → ℕ
turn_of type = if type == "clarification" then 2 else 1

abbrev pub question_of : InFrame → Question
question_of f = record {
  thread_id = f.thread_id;
  question = f.content;
  asker_email = f.asker_email;
  turn = turn_of f.type;
}

abbrev pub reason_of : HookError → String
reason_of invalid_response = "buddy_hook_invalid_response"
reason_of e = "buddy_hook_error"

abbrev pub reply_of : InFrame → Result HookError Hook.Response → OutFrame
reply_of f (ok r) = record {
  type = r.type;
  thread_id = f.thread_id;
  content = r.content;
  reason = "";
}
reply_of f (err e) = record {
  type = "close";
  thread_id = f.thread_id;
  content = "";
  reason = reason_of e;
}

-- The frame that is sent back for a frame, given what the hook makes of its question.
unfoldable pub handle_frame :
    (Question → Result HookError Hook.Response) → InFrame → Option OutFrame
handle_frame hook f =
    if f.type == "question" || f.type == "clarification"
    then some (reply_of f (hook (question_of f)))
    else none
