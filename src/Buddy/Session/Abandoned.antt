-- ===== src/Buddy/Session/Abandoned.antt =====
-- A call of `Send` of buddy-cli/internal/client/session.go whose frame is queued when the writer ends.
use clawgard.Prelude.{
  ℕ, ◌≡◌, ◌⊎◌, inl, inr, sym, refl, ◌∙◌, ap, subst, Bool, true, false, Option, none, some, List,
  Comparable-ℕ, nat_eq, nat_eq_iff, Bool-cases,
}
use clawgard.Buddy.Supervisor.{OutFrame}
use clawgard.Buddy.Session.{
  told, session_closed, context_ended, Pc, idle, offering, waiting, finished, WriteReq, Session,
  update, Step, calls, queues, finds_closed, gives_up, hears, stops_waiting, writes_one, stops,
  shuts_down, Reach, here, after,
}

-- The call has no answer, and stands in its second select or has left it because its context ended.
pub record IsAbandoned (i : ℕ) (wire : List WriteReq) (s : Session) : Type 0 where
  pub stopped : s.stopped ≡ true
  pub silent : s.done i ≡ none
  pub stands : (s.pc i ≡ waiting) ⊎ (s.pc i ≡ finished context_ended)
  pub unwritten : s.wire ≡ wire

abbrev Stuck : Pc → Type 0
Stuck p = (p ≡ waiting) ⊎ (p ≡ finished context_ended)

from_idle : (p : Pc) → Stuck idle → Stuck p
from_idle p (inl e) = cc
from_idle p (inr e) = cc

from_offering : (f : OutFrame) (p : Pc) → Stuck (offering f) → Stuck p
from_offering f p (inl e) = cc
from_offering f p (inr e) = cc

module _ {i : ℕ} {wire : List WriteReq} (s : Session) (h : IsAbandoned i wire s) where
  -- A call moves in a way that the abandoned one does not.
  moves :
      (j : ℕ) (p q : Pc)
      → s.pc j ≡ q
      → (Stuck q → Stuck p)
      → IsAbandoned i wire (record s { pc = update s.pc j p })
  moves j p q at moved = record {
    stopped = h.stopped;
    silent = h.silent;
    stands = elim (Bool-cases (nat_eq i j)) [
      | inr other ↦ rw other h.stands
      | inl same ↦ rw same (moved (subst Stuck (ap s.pc ((nat_eq_iff i j).0 same) ∙ at) h.stands))
    ];
    unwritten = h.unwritten;
  }

  queued :
      (j : ℕ) (f : OutFrame) (queue : List WriteReq)
      → s.pc j ≡ offering f
      → IsAbandoned i wire (record s { writes = queue; pc = update s.pc j waiting })
  queued j f queue at =
      let m = moves j waiting (offering f) at (from_offering f waiting) in
      record { stopped = m.stopped; silent = m.silent; stands = m.stands; unwritten = m.unwritten }

  heard :
      (j : ℕ) (b : Bool)
      → s.done j ≡ some b
      → IsAbandoned i wire
          (record s { done = update s.done j none; pc = update s.pc j (finished (told b)) })
  heard j b there = elim (Bool-cases (nat_eq i j)) [
    | inl same ↦ absurd (no_answer (sym h.silent ∙ ap s.done ((nat_eq_iff i j).0 same) ∙ there))
    | inr other ↦ record {
      stopped = h.stopped;
      silent = rw other h.silent;
      stands = rw other h.stands;
      unwritten = h.unwritten;
    }
  ]
    where
      no_answer : ◌≡◌ {A = Option Bool} none (some b) → ⊥
      no_answer e = cc

Step-IsAbandoned :
    {i : ℕ} {wire : List WriteReq} {s t : Session}
    → Step s t
    → IsAbandoned i wire s
    → IsAbandoned i wire t
Step-IsAbandoned {s = s} (calls j f at) h =
    moves s h j (offering f) idle at (from_idle (offering f))
Step-IsAbandoned {s = s} (queues j f at room) h = queued s h j f _ at
Step-IsAbandoned {s = s} (finds_closed j f at closed) h =
    moves s h j (finished session_closed) (offering f) at
      (from_offering f (finished session_closed))
Step-IsAbandoned {s = s} (gives_up j f at) h =
    moves s h j (finished context_ended) (offering f) at (from_offering f (finished context_ended))
Step-IsAbandoned {s = s} (hears j b at there) h = heard s h j b there
Step-IsAbandoned {s = s} (stops_waiting j at) h =
    moves s h j (finished context_ended) waiting at (λ k. inr refl)
Step-IsAbandoned {s = s} (writes_one r rs b running first) h =
    absurd (halted (sym h.stopped ∙ running))
  where
    halted : true ≡ false → ⊥
    halted e = cc
Step-IsAbandoned {s = s} (stops running closed) h = record {
  stopped = refl;
  silent = h.silent;
  stands = h.stands;
  unwritten = h.unwritten;
}
Step-IsAbandoned {s = s} shuts_down h = record {
  stopped = h.stopped;
  silent = h.silent;
  stands = h.stands;
  unwritten = h.unwritten;
}

-- When the writer has returned while a call of `Send` waits for the answer to its queued request, the call
-- is never answered, whatever the goroutines do from then on: it goes on waiting, or returns because its
-- context ended, and no frame is written any more.
pub abandoned_lem :
    {s t : Session} {i : ℕ}
    → s.stopped ≡ true
    → s.pc i ≡ waiting
    → s.done i ≡ none
    → Reach s t
    → ((t.pc i ≡ waiting) ⊎ (t.pc i ≡ finished context_ended)) × (t.wire ≡ s.wire)
abandoned_lem {s} {t} {i} stopped waits silent r = let h = kept r in (h.stands, h.unwritten)
  where
    kept : {u : Session} → Reach s u → IsAbandoned i s.wire u
    kept here = record { stopped = stopped; silent = silent; stands = inl waits; unwritten = refl }
    kept (after r st) = Step-IsAbandoned st (kept r)
