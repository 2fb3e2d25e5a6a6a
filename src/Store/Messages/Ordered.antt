-- ===== src/Store/Messages/Ordered.antt =====
-- The ORDER BY of server/internal/store/messages.go on messages that were made at different times.
use clawgard.Prelude.{◌<◌, ◌≡◌, refl, Bool, true, List, [], ◌∷◌, ◌++◌, arith, keep, order_by, All}
use clawgard.Store.Db.{Message}
use clawgard.Store.Messages.{older}

-- Messages at increasing times.
abbrev pub Ascending : List Message → Type 0
Ascending [] = Unit {0}
Ascending (x ∷ xs) = All (λ (y : Message). x.created_at < y.created_at) xs × Ascending xs

pub order_by-Ascending : (ms : List Message) → Ascending ms → order_by older ms ≡ ms
order_by-Ascending [] h = refl
order_by-Ascending (x ∷ []) h = refl
order_by-Ascending (x ∷ y ∷ ms) h = rw (order_by-Ascending (y ∷ ms) h.1) (ground arith)

All-last :
    (x m : Message) (ms : List Message)
    → x.created_at < m.created_at
    → All (λ (y : Message). x.created_at < y.created_at) ms
    → All (λ (y : Message). x.created_at < y.created_at) (ms ++ m ∷ [])
All-last x m [] h k = (h, tt)
All-last x m (y ∷ ms) h (k, ks) = (k, All-last x m ms h ks)

-- A message that is newer than the others comes last.
pub Ascending-last :
    (m : Message) (ms : List Message)
    → All (λ (x : Message). x.created_at < m.created_at) ms
    → Ascending ms
    → Ascending (ms ++ m ∷ [])
Ascending-last m [] past h = (tt, tt)
Ascending-last m (x ∷ ms) (p, past) (h, hs) = (All-last x m ms p h, Ascending-last m ms past hs)

pub keep-last :
    (p : Message → Bool) (m : Message) (ms : List Message)
    → p m ≡ true
    → keep p (ms ++ m ∷ []) ≡ keep p ms ++ m ∷ []
keep-last p m [] h = rw h refl
keep-last p m (x ∷ ms) h = ground (arith, keep-last p m ms h)
