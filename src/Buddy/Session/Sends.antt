-- ===== src/Buddy/Session/Sends.antt =====
-- What becomes of each call of `Send` in buddy-cli/internal/client/session.go.
use clawgard.Prelude.{
  ℕ, ◌+◌, ◌≤◌, ◌≡◌, Bool, Option, none, some, List, [], ◌∷◌, ◌++◌, ◌==◌, Comparable-ℕ,
  if◌then◌else◌, length,
}
use clawgard.Buddy.Session.{
  told, session_closed, context_ended, Pc, idle, offering, waiting, finished, WriteReq, Session,
  capacity,
}

-- How often the call is in a list of requests.
abbrev pub count : ℕ → List WriteReq → ℕ
count i [] = 0
count i (r ∷ rs) = if r.sender == i then count i rs + 1 else count i rs

-- How often its frame was written and how often it is queued, by where a call stands.
abbrev pub Fits : Pc → ℕ → ℕ → Option Bool → Type 0
Fits idle m n a = (m ≡ 0) × (n ≡ 0) × (a ≡ none)
Fits (offering f) m n a = (m ≡ 0) × (n ≡ 0) × (a ≡ none)
Fits waiting m n none = (m ≡ 0) × (n ≡ 1)
Fits waiting m n (some b) = (m ≡ 1) × (n ≡ 0)
Fits (finished (told b)) m n a = (m ≡ 1) × (n ≡ 0)
Fits (finished session_closed) m n a = (m ≡ 0) × (n ≡ 0) × (a ≡ none)
Fits (finished context_ended) m n a = m + n ≤ 1

pub record IsTracked (s : Session) : Type 0 where
  pub bounded : length s.writes ≤ capacity
  pub fits : (j : ℕ) → Fits (s.pc j) (count j s.wire) (count j s.writes) (s.done j)

abbrev FitsAt : Session → ℕ → Type 0
FitsAt s j = Fits (s.pc j) (count j s.wire) (count j s.writes) (s.done j)

-- The requests that were accepted, in this order.
abbrev pub accepted : Session → List WriteReq
accepted s = s.wire ++ s.writes
