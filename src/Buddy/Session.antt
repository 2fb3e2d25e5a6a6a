-- ===== src/Buddy/Session.antt =====
-- `Session` of buddy-cli/internal/client/session.go: any number of goroutines in `Send`, the writer
-- goroutine, the end of `Run`, and contexts that may end at any time, interleaved in any order. A call
-- of `Send` is known by a number.
pub mod Sends
pub mod Abandoned
use clawgard.Prelude.{
  ℕ, ◌<◌, ◌≡◌, Bool, true, false, Option, none, some, List, [], ◌∷◌, ◌++◌, ◌==◌, Comparable-ℕ,
  if◌then◌else◌, length,
}
use clawgard.Buddy.Supervisor.{OutFrame}

-- What `Send` returns: what the write gave (`true` for no error), or one of its own errors.
pub data SendResult : Type 0 where
  told : Bool → SendResult
  session_closed context_ended : SendResult

-- Where a call of `Send` stands: in its first select, or in its second.
pub data Pc : Type 0 where
  idle : Pc
  offering : OutFrame → Pc
  waiting : Pc
  finished : SendResult → Pc

pub record WriteReq : Type 0 where
  pub sender : ℕ
  pub frame : OutFrame

pub record Session : Type 0 where
  -- the channel `writes`
  pub writes : List WriteReq
  -- whether `closed` is closed, and whether the writer has returned
  pub closed : Bool
  pub stopped : Bool
  -- the requests whose frames have been given to `conn.Write`, in this order
  pub wire : List WriteReq
  -- what is in the channel `done` of each call
  pub done : ℕ → Option Bool
  pub pc : ℕ → Pc

abbrev pub capacity : ℕ
capacity = 16

abbrev pub new_session : Session
new_session = record {
  writes = [];
  closed = false;
  stopped = false;
  wire = [];
  done = λ _. none;
  pc = λ _. idle;
}

abbrev pub update : {A : Type 0} → (ℕ → A) → ℕ → A → ℕ → A
update f i a j = if j == i then a else f j

pub data Step (s : Session) : Session → Type 0 where
  calls :
      (i : ℕ) (f : OutFrame) → s.pc i ≡ idle → Step s (record s { pc = update s.pc i (offering f) })
  -- the cases of the first select
  queues :
      (i : ℕ) (f : OutFrame)
      → s.pc i ≡ offering f
      → length s.writes < capacity
      → Step s (record s {
        writes = s.writes ++ record { sender = i; frame = f } ∷ [];
        pc = update s.pc i waiting;
      })
  finds_closed :
      (i : ℕ) (f : OutFrame)
      → s.pc i ≡ offering f
      → s.closed ≡ true
      → Step s (record s { pc = update s.pc i (finished session_closed) })
  gives_up :
      (i : ℕ) (f : OutFrame)
      → s.pc i ≡ offering f
      → Step s (record s { pc = update s.pc i (finished context_ended) })
  -- the cases of the second select
  hears :
      (i : ℕ) (b : Bool)
      → s.pc i ≡ waiting
      → s.done i ≡ some b
      → Step s (record s { done = update s.done i none; pc = update s.pc i (finished (told b)) })
  stops_waiting :
      (i : ℕ) → s.pc i ≡ waiting → Step s (record s { pc = update s.pc i (finished context_ended) })
  -- the cases of the writer's select; json.Marshal does not fail on a struct of strings
  writes_one :
      (r : WriteReq) (rs : List WriteReq) (b : Bool)
      → s.stopped ≡ false
      → s.writes ≡ r ∷ rs
      → Step s (record s {
        writes = rs;
        wire = s.wire ++ r ∷ [];
        done = update s.done r.sender (some b);
      })
  stops : s.stopped ≡ false → s.closed ≡ true → Step s (record s { stopped = true })
  -- the deferred `shutdown` of `Run`, which closes once
  shuts_down : Step s (record s { closed = true })

pub data Reach (s : Session) : Session → Type 0 where
  here : Reach s s
  after : {t u : Session} → Reach s t → Step t u → Reach s u
