-- ===== src/Router/Registry/Connections.antt =====
-- The registrations of server/internal/router/registry.go and their cancel functions.
use clawgard.Prelude.{
  String, ℕ, ◌+◌, ◌%◌, ◌≤◌, ◌<◌, ◌≡◌, ◌≢◌, ◌∙◌, ◌⊎◌, ◌&&◌, false, none, some, List, [], ◌∷◌, arith,
  ◌==◌, Comparable-ℕ, Comparable-String, All, if◌then◌else◌, Bool, ap,
}
use clawgard.Assoc.{lookup, put, lookup-put, lookup-delete}
use clawgard.Router.Registry.{
  BuddyEntry, Registry, register_buddy, unregister, online, is_gen, u64_mod, ensure_waiter,
  send_question, deliver_out_frame, poll, wait_for_frame, clear_waiter, Op, registers, unregisters,
  sends, delivers, waits, polls, clears, step, run,
}

abbrev pub entry : ℕ → Registry → BuddyEntry
entry w r = record { writer = w; gen = (r.gen + 1) % u64_mod }

module _ (id w : ℕ) (r : Registry) where
  pub lookup-register_buddy :
      (j : ℕ)
      → lookup j (register_buddy id w r).1.buddies
        ≡ (if id == j then some (entry w r) else lookup j r.buddies)
  unfolding register_buddy
  lookup-register_buddy j = lookup-put id j (entry w r) r.buddies

lookup-unregister :
    (id g j : ℕ) (r : Registry)
    → lookup j (unregister id g r).buddies
      ≡ (if id == j && is_gen g (lookup id r.buddies) then none else lookup j r.buddies)
unfolding unregister
lookup-unregister id g j r = ground (arith, lookup-delete id j r.buddies)

-- Registering replaces the previous connection of the buddy. While the counter has not wrapped, the
-- cancel function of an older registration then changes nothing, the new one's takes the buddy
-- offline, and no other buddy is touched by either.
pub register-unregister :
    (id w old j : ℕ) (r : Registry)
    → r.gen + 1 < u64_mod
    → old ≤ r.gen
    → j ≢ id
    → let (gen, r') = register_buddy id w r in
      (lookup id r'.buddies ≡ some (record { writer = w; gen = gen }))
      × (unregister id old r' ≡ r')
      × (online id (unregister id gen r') ≡ false)
      × (lookup j (unregister id gen r').buddies ≡ lookup j r.buddies)
unfolding register_buddy unregister online
register-unregister id w old j r wrap h ne = ground (
  arith,
  lookup-put id id (entry w r) r.buddies,
  lookup-put id j (entry w r) r.buddies,
  lookup-delete id id (put id (entry w r) r.buddies),
  lookup-delete id j (put id (entry w r) r.buddies),
)

-- Operations that neither replace the registration of `id` nor cancel its generation.
abbrev pub Leaves : ℕ → ℕ → Op → Type 0
Leaves id gen (registers j _) = j ≢ id
Leaves id gen (unregisters j g) = (j ≢ id) ⊎ (g ≢ gen)
Leaves id gen _ = Unit {0}

buddies-ensure_waiter : (t : String) (r : Registry) → (ensure_waiter t r).1.buddies ≡ r.buddies
unfolding ensure_waiter
buddies-ensure_waiter t r = ground arith

buddies-poll : (ch : ℕ) (d p : Bool) (r : Registry) → (poll ch d p r).1.buddies ≡ r.buddies
unfolding poll
buddies-poll ch d p r = ground arith

step-keeps_entry :
    (id : ℕ) (e : BuddyEntry) (op : Op) (r : Registry)
    → Leaves id e.gen op
    → lookup id r.buddies ≡ some e
    → lookup id (step op r).buddies ≡ some e
unfolding step
step-keeps_entry id e (registers j w) r l h = ground (arith, lookup-register_buddy j w r id)
step-keeps_entry id e (unregisters j g) r l h = ground (arith, lookup-unregister j g id r)
step-keeps_entry id e (sends j f) r l h =
    unfold send_question in ground (arith, buddies-ensure_waiter f.thread_id r)
step-keeps_entry id e (delivers f) r l h = unfold deliver_out_frame in ground arith
step-keeps_entry id e (waits t d p) r l h =
    unfold wait_for_frame in
    ap (lookup id)
      (buddies-poll (ensure_waiter t r).0 d p (ensure_waiter t r).1 ∙ buddies-ensure_waiter t r)
    ∙ h
step-keeps_entry id e (polls ch d p) r l h = ap (lookup id) (buddies-poll ch d p r) ∙ h
step-keeps_entry id e (clears t) r l h = unfold clear_waiter in h

run-keeps_entry :
    (id : ℕ) (e : BuddyEntry) (ops : List Op) (r : Registry)
    → All (Leaves id e.gen) ops
    → lookup id r.buddies ≡ some e
    → lookup id (run ops r).buddies ≡ some e
unfolding run
run-keeps_entry id e [] r l h = h
run-keeps_entry id e (op ∷ ops) r l h =
    run-keeps_entry id e ops (step op r) l.1 (step-keeps_entry id e op r l.0 h)

-- A registration stays, with its own writer, through every sequence of operations that neither
-- registers the same buddy again nor cancels this generation.
pub registration_persists :
    (id w : ℕ) (ops : List Op) (r : Registry)
    → All (Leaves id (register_buddy id w r).0) ops
    → lookup id (run ops (register_buddy id w r).1).buddies
      ≡ some (record { writer = w; gen = (register_buddy id w r).0 })
registration_persists id w ops r l =
    run-keeps_entry id (record { writer = w; gen = (register_buddy id w r).0 }) ops _ l
      (unfold register_buddy in ground (arith, lookup-put id id (entry w r) r.buddies))
