-- ===== src/Api/Safety.antt =====
-- How a handler of server/internal/api may change the world: the history and the tables of the
-- database, the registry's channels and the connections' channels.
pub mod Handlers
pub mod Connections
pub mod Admins
pub mod Devices
pub mod Requests
pub mod Interleaved
use clawgard.Prelude.{
  ℕ, ◌≤◌, ◌≡◌, refl, ap, ◌∙◌, inl, inr, String, Bool, true, false, Option, none, some, List, [],
  ◌∷◌, ◌++◌, arith, ltb, Comparable-ℕ, if◌then◌else◌, Bool-cases, Option-cases, length,
  length-append, nat_eq_iff,
}
use clawgard.Exec.{Result, ok, err, Exec, pure, leave, reads, guard, ◌>>=◌}
use clawgard.Exec.Respects.{
  Respects-atom, Respects-at, IsPreorder, Script, finished, atomic, perform, Respects,
  Respects-pure, Respects-leave, Respects-reads, Respects-then, Respects-guard, Respects-if,
  Respects-bind,
}
use clawgard.Assoc.{lookup, lookup-put, put}
use clawgard.Store.Db.{Db, Error, Sql}
use clawgard.Store.History.{IsSound, Evolves, Evolves-order}
use clawgard.Store.History.Statements.{Sound}
use clawgard.Router.Registry.{InFrame, Registry, send_question}
use clawgard.Router.Registry.Invariant.{IsValid, send_question-IsValid}
use clawgard.Api.Http.{Response}
use clawgard.Api.World.{
  World, Handler, lift_db, query, attempt, or_leave, or_refuse, send, write_frame, wire_at,
  write_capacity, written_to,
}

-- No write channel holds more than 16 frames.
abbrev pub IsWired : World → Type 0
IsWired w = (conn : ℕ) → length (wire_at conn w) ≤ write_capacity

pub record Proceeds (w w' : World) : Type 0 where
  pub db : Evolves w.db w'.db
  pub reg : IsValid w.reg → IsValid w'.reg
  pub wires : IsWired w → IsWired w'

pub Proceeds-order : IsPreorder Proceeds
Proceeds-order = record {
  same = λ w. record { db = Evolves-order.same w.db; reg = λ v. v; wires = λ b. b };
  next = λ a b c x y. record {
    db = Evolves-order.next a.db b.db c.db x.db y.db;
    reg = λ v. y.reg (x.reg v);
    wires = λ v. y.wires (x.wires v);
  };
}

abbrev pub IsSafe : {A : Type 0} → Handler A → Type 1
IsSafe m = Respects Proceeds m

-- The steps of a store operation are those of its handler.
lifted : {A : Type 0} → Script Error Evolves A → Script Response Proceeds (Result Error A)
lifted (finished r) = finished (ok r)
lifted (atomic m h k) =
    atomic (query m) (λ w. unfold query in record { db = h w.db; reg = λ v. v; wires = λ b. b })
      λ r. elim r [ ok x ↦ lifted (k x) | err e ↦ finished (err e) ]

lifted_means :
    {A : Type 0} (p : Script Error Evolves A) (w : World)
    → perform (lifted p) w ≡ query (perform p) w
unfolding lifted perform query
lifted_means (finished r) w = refl
lifted_means (atomic m h k) w = lifted_means (k (m w.db).0) (record w { db = (m w.db).1 })

pub query-IsSafe : {A : Type 0} (m : Sql A) → Sound m → IsSafe (query m)
unfolding query
query-IsSafe m h = record {
  script = lifted h.script;
  means = λ w. lifted_means h.script w ∙ ap (lift_db w) (h.means w.db);
}

module _ {A : Type 0} where
  pub pure-IsSafe : (a : A) → IsSafe (pure a)
  pure-IsSafe = Respects-pure Proceeds

  pub leave-IsSafe : (r : Response) → IsSafe {A = A} (leave r)
  leave-IsSafe = Respects-leave Proceeds

  pub reads-IsSafe : (f : World → A) → IsSafe (reads f)
  reads-IsSafe = Respects-reads Proceeds Proceeds-order

  pub if-IsSafe : (b : Bool) (m n : Handler A) → IsSafe m → IsSafe n → IsSafe (if b then m else n)
  if-IsSafe = Respects-if Proceeds

  pub or_refuse-IsSafe : (o : Option A) (r : Response) → IsSafe (or_refuse o r)
  or_refuse-IsSafe none r = leave-IsSafe r
  or_refuse-IsSafe (some a) r = pure-IsSafe a

  or_leave-IsSafe : (f : Error → Response) (r : Result Error A) → IsSafe (or_leave f r)
  or_leave-IsSafe f (ok a) = pure-IsSafe a
  or_leave-IsSafe f (err e) = leave-IsSafe (f e)

pub guard-IsSafe : (b : Bool) (r : Response) → IsSafe (guard b r)
guard-IsSafe = Respects-guard Proceeds

pub bind-IsSafe :
    {A B : Type 0} (m : Handler A) (f : A → Handler B)
    → IsSafe m
    → ((a : A) → IsSafe (f a))
    → IsSafe (m >>= f)
bind-IsSafe = Respects-bind Proceeds

pub attempt-IsSafe :
    {A : Type 0} (m : Sql A) (f : Error → Response) → Sound m → IsSafe (attempt m f)
unfolding attempt
attempt-IsSafe m f h = bind-IsSafe _ _ (query-IsSafe m h) (or_leave-IsSafe f)

write_frame-IsWired :
    (conn : ℕ) (f : InFrame) (w : World) → IsWired w → IsWired (write_frame conn f w)
unfolding write_frame
write_frame-IsWired conn f w b = elim (Bool-cases (ltb (length (wire_at conn w)) write_capacity)) [
  | inl room ↦ rw room (λ c. ground (
    arith,
    lookup-put conn c (wire_at conn w ++ f ∷ []) w.wires,
    length-append (wire_at conn w) (f ∷ []),
    b c,
  ))
  | inr full ↦ rw full b
]

write_frame-db : (conn : ℕ) (f : InFrame) (w : World) → (write_frame conn f w).db ≡ w.db
unfolding write_frame
write_frame-db conn f w = ground arith

write_frame-reg : (conn : ℕ) (f : InFrame) (w : World) → (write_frame conn f w).reg ≡ w.reg
unfolding write_frame
write_frame-reg conn f w = ground arith

-- `SendQuestion` under its lock.
abbrev finds_writer : ℕ → InFrame → Handler (Option ℕ)
finds_writer buddy f w =
    let (o, reg) = send_question buddy f w.reg in (ok o, record w { reg = reg })

finds_writer-IsSafe : (buddy : ℕ) (f : InFrame) → IsSafe (finds_writer buddy f)
finds_writer-IsSafe buddy f = Respects-atom _ (λ w. record {
  db = Evolves-order.same w.db;
  reg = send_question-IsValid buddy f w.reg;
  wires = λ b. b;
})

-- The writer is called after the lock is let go.
abbrev to_writer : InFrame → Result Response (Option ℕ) → Handler Bool
to_writer f (ok none) w = (ok false, w)
to_writer f (ok (some conn)) w = (ok true, write_frame conn f w)
to_writer f (err e) w = (err e, w)

to_writer-IsSafe : (f : InFrame) (r : Result Response (Option ℕ)) → IsSafe (to_writer f r)
to_writer-IsSafe f (ok none) = pure-IsSafe false
to_writer-IsSafe f (err e) = leave-IsSafe e
to_writer-IsSafe f (ok (some conn)) = Respects-atom _ (λ w. record {
  db = rw write_frame-db (Evolves-order.same w.db);
  reg = λ h. rw write_frame-reg h;
  wires = write_frame-IsWired conn f w;
})

sent_in_steps :
    (f : InFrame) (w : World) (x : Option ℕ × Registry)
    → to_writer f (ok x.0) (record w { reg = x.1 }) ≡ written_to f w x
sent_in_steps f w (none, reg) = refl
sent_in_steps f w (some conn, reg) = refl

pub send-IsSafe : (buddy : ℕ) (f : InFrame) → IsSafe (send buddy f)
unfolding send
send-IsSafe buddy f =
    let two = Respects-then _ (to_writer f) (finds_writer-IsSafe buddy f) (to_writer-IsSafe f) in
    record {
      script = two.script;
      means = λ w. two.means w ∙ sent_in_steps f w (send_question buddy f w.reg);
    }

pub ruleset safe_rules = (
  query-IsSafe, pure-IsSafe, leave-IsSafe, reads-IsSafe, if-IsSafe, or_refuse-IsSafe, guard-IsSafe,
  bind-IsSafe, attempt-IsSafe, send-IsSafe,
)
