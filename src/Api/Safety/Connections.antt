-- ===== src/Api/Safety/Connections.antt =====
-- The handler of server/internal/api/buddy_ws.go, as steps of the world.
use clawgard.Prelude.{
  ℕ, ◌≡◌, refl, ◌∙◌, String, Option, none, some, List, [], ◌∷◌, arith, Comparable-ℕ,
  Comparable-String,
}
use clawgard.Assoc.{lookup, lookup-put}
use clawgard.Exec.{Result, ok, err}
use clawgard.Router.Registry.{InFrame, OutFrame, offer, deliver_out_frame}
use clawgard.Api.Http.{Uuid, Response}
use clawgard.Api.World.{World, Handler}
use clawgard.Api.BuddyWs.{
  Accept, upgraded, Bcrypt, lookup_buddy_by_api_key, or_unauthorized, register, connect, deliver,
  keep_frame, keep_parsed, persist, on_message, read_loop, disconnect, handle_buddy_connect,
}
use clawgard.Store.History.{Evolves-order}
use clawgard.Router.Registry.Invariant.{register_buddy-IsValid, unregister-IsValid, offer-IsValid}
use clawgard.Exec.Respects.{Respects-atom, Respects-then}
use clawgard.Api.Safety.{IsSafe, safe_rules, reads-IsSafe, pure-IsSafe, leave-IsSafe, bind-IsSafe}
use clawgard.Api.Safety.Handlers.{store_rules}

or_unauthorized-IsSafe : {A : Type 0} (o : Option A) (m : String) → IsSafe (or_unauthorized o m)
or_unauthorized-IsSafe none m = leave-IsSafe _
or_unauthorized-IsSafe (some a) m = pure-IsSafe a

lookup-IsSafe : (b : Bcrypt) (raw : String) → IsSafe (lookup_buddy_by_api_key b raw)
unfolding lookup_buddy_by_api_key
lookup-IsSafe b raw = search (safe_rules, store_rules)

register-IsSafe : (buddy conn : ℕ) → IsSafe (register buddy conn)
register-IsSafe buddy conn = Respects-atom _ (λ w. record {
  db = Evolves-order.same w.db;
  reg = register_buddy-IsValid buddy conn w.reg;
  wires = λ b c. ground (arith, lookup-put {V = List InFrame} conn c [] w.wires, b c);
})

upgraded-IsSafe : (accept : Accept) → IsSafe (upgraded accept)
upgraded-IsSafe none = pure-IsSafe tt
upgraded-IsSafe (some r) = leave-IsSafe r

pub connect-IsSafe :
    (b : Bcrypt) (accept : Accept) (conn : ℕ) (authz : String)
    → IsSafe (connect b accept conn authz)
unfolding connect
connect-IsSafe b accept conn authz =
    search
      (
        safe_rules, store_rules, or_unauthorized-IsSafe, lookup-IsSafe, upgraded-IsSafe,
        register-IsSafe,
      )
      depth 20

-- The channel is looked up under the lock, and the frame offered to it afterwards.
abbrev offered : OutFrame → Result Response (Option ℕ) → Handler (Unit {0})
offered f (ok none) w = (ok tt, w)
offered f (ok (some ch)) w = (ok tt, record w { reg = offer ch f w.reg })
offered f (err e) w = (err e, w)

offered-IsSafe : (f : OutFrame) (r : Result Response (Option ℕ)) → IsSafe (offered f r)
offered-IsSafe f (ok none) = pure-IsSafe tt
offered-IsSafe f (err e) = leave-IsSafe e
offered-IsSafe f (ok (some ch)) =
    Respects-atom _
      (λ w. record { db = Evolves-order.same w.db; reg = offer-IsValid ch f w.reg; wires = λ b. b })

delivered_in_steps :
    (f : OutFrame) (w : World) (o : Option ℕ)
    → lookup f.thread_id w.reg.waiters ≡ o
    → offered f (ok o) w ≡ deliver f w
unfolding deliver_out_frame
delivered_in_steps f w none e = rw (e, deliver_out_frame) refl
delivered_in_steps f w (some ch) e = rw (e, deliver_out_frame) refl

deliver-IsSafe : (f : OutFrame) → IsSafe (deliver f)
deliver-IsSafe f =
    let two =
      Respects-then _ (offered f) (reads-IsSafe (λ w. lookup f.thread_id w.reg.waiters))
        (offered-IsSafe f) in
    record {
      script = two.script;
      means = λ w. two.means w ∙ delivered_in_steps f w (lookup f.thread_id w.reg.waiters) refl;
    }

keep_frame-IsSafe : (id : ℕ) (f : OutFrame) → IsSafe (keep_frame id f)
unfolding keep_frame
keep_frame-IsSafe id f = search (safe_rules, store_rules) depth 10

keep_parsed-IsSafe : (o : Option ℕ) (f : OutFrame) → IsSafe (keep_parsed o f)
unfolding keep_parsed
keep_parsed-IsSafe none f = pure-IsSafe tt
keep_parsed-IsSafe (some id) f = keep_frame-IsSafe id f

persist-IsSafe : (u : Uuid) (f : OutFrame) → IsSafe (persist u f)
unfolding persist
persist-IsSafe u f = search (safe_rules, keep_parsed-IsSafe)

pub on_message-IsSafe : (u : Uuid) (buddy : ℕ) (m : Option OutFrame) → IsSafe (on_message u buddy m)
unfolding on_message
on_message-IsSafe u buddy none = pure-IsSafe tt
on_message-IsSafe u buddy (some f) =
    search (safe_rules, store_rules, deliver-IsSafe, persist-IsSafe) depth 10

read_loop-IsSafe :
    (u : Uuid) (buddy : ℕ) (ms : List (Option OutFrame)) → IsSafe (read_loop u buddy ms)
unfolding read_loop
read_loop-IsSafe u buddy [] = pure-IsSafe tt
read_loop-IsSafe u buddy (m ∷ ms) =
    bind-IsSafe _ _ (on_message-IsSafe u buddy m) λ _. read_loop-IsSafe u buddy ms

pub disconnect-IsSafe : (buddy gen : ℕ) → IsSafe (disconnect buddy gen)
unfolding disconnect
disconnect-IsSafe buddy gen = Respects-atom _ (λ w. record {
  db = Evolves-order.same w.db;
  reg = unregister-IsValid buddy gen w.reg;
  wires = λ b. b;
})

pub handle_buddy_connect-IsSafe :
    (u : Uuid) (b : Bcrypt) (accept : Accept) (conn : ℕ) (authz : String)
    (ms : List (Option OutFrame))
    → IsSafe (handle_buddy_connect u b accept conn authz ms)
unfolding handle_buddy_connect
handle_buddy_connect-IsSafe u b accept conn authz ms =
    bind-IsSafe _ _ (connect-IsSafe b accept conn authz) λ (buddy, gen).
      bind-IsSafe _ _ (read_loop-IsSafe u buddy.id ms) λ _. disconnect-IsSafe buddy.id gen
