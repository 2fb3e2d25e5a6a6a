-- ===== src/Router/Registry/Invariant.antt =====
-- The waiter channels of server/internal/router/registry.go: their bounds and their owners.
use clawgard.Prelude.{
  ℕ, zero, suc, ◌≤◌, ◌<◌, ◌≡◌, refl, ap, inl, inr, String, Bool, true, some, List, [], ◌∷◌, ◌++◌,
  arith, ltb, ◌&&◌, Bool-cases, Option-cases, length, length-append, set, All, All-append, eq_iff,
  Comparable-String, Comparable-ℕ,
}
use clawgard.Assoc.{lookup, put, lookup-put, lookup-delete}
use clawgard.Router.Registry.{
  InFrame, OutFrame, Registry, channel_capacity, buffer_at, make_waiter, ensure_waiter,
  send_question, offer, deliver_out_frame, poll, wait_for_frame, clear_waiter, register_buddy,
  unregister, new_registry, Op, registers, unregisters, sends, delivers, waits, polls, clears, step,
  run, is_gen,
}

abbrev pub IsBounded : List OutFrame → Type 0
IsBounded q = length q ≤ channel_capacity

pub record IsValid (r : Registry) : Type 0 where
  pub bounded : All IsBounded r.channels
  pub in_range : (t : String) (ch : ℕ) → lookup t r.waiters ≡ some ch → ch < length r.channels
  pub unshared :
      (s t : String) (ch : ℕ) → lookup s r.waiters ≡ some ch → lookup t r.waiters ≡ some ch → s ≡ t

pub length-set {ℓ} : {A : Type ℓ} (xs : List A) (i : ℕ) (v : A) → length (set xs i v) ≡ length xs
length-set [] i v = refl
length-set (x ∷ xs) zero v = refl
length-set (x ∷ xs) (suc i) v = ap suc (length-set xs i v)

set-All {ℓ κ} :
    {A : Type ℓ} (P : A → Type κ) (xs : List A) (i : ℕ) (v : A)
    → All P xs
    → P v
    → All P (set xs i v)
set-All P [] i v h hv = tt
set-All P (x ∷ xs) zero v h hv = (hv, h.1)
set-All P (x ∷ xs) (suc i) v h hv = (h.0, set-All P xs i v h.1 hv)

pub buffer_at-IsBounded :
    (ch : ℕ) (chans : List (List OutFrame)) → All IsBounded chans → IsBounded (buffer_at ch chans)
buffer_at-IsBounded ch [] h = omega arith
buffer_at-IsBounded zero (q ∷ chans) h = h.0
buffer_at-IsBounded (suc ch) (q ∷ chans) h = buffer_at-IsBounded ch chans h.1

-- Writing one channel keeps the registry valid.
set-IsValid :
    (r : Registry) (ch : ℕ) (q : List OutFrame)
    → IsValid r
    → IsBounded q
    → IsValid (record r { channels = set r.channels ch q })
set-IsValid r ch q v b = record {
  bounded = set-All IsBounded r.channels ch q v.bounded b;
  in_range = λ t c e. rw (length-set r.channels ch q) (v.in_range t c e);
  unshared = v.unshared;
}

module _ (r : Registry) (v : IsValid r) (t : String) where
  fresh_in_range :
      (s : String) (ch : ℕ)
      → lookup s (put t (length r.channels) r.waiters) ≡ some ch
      → ch < length (r.channels ++ [] ∷ [])
  fresh_in_range s ch e = ground (
    arith,
    lookup-put t s (length r.channels) r.waiters,
    length-append r.channels ([] ∷ []),
    v.in_range s ch,
  )

  fresh_unshared :
      (s u : String) (ch : ℕ)
      → lookup s (put t (length r.channels) r.waiters) ≡ some ch
      → lookup u (put t (length r.channels) r.waiters) ≡ some ch
      → s ≡ u
  fresh_unshared s u ch e f = ground (
    arith,
    lookup-put t s (length r.channels) r.waiters,
    lookup-put t u (length r.channels) r.waiters,
    eq_iff t s,
    eq_iff t u,
    v.in_range s ch,
    v.in_range u ch,
    v.unshared s u ch,
  )

  make_waiter-IsValid : IsValid (make_waiter t r).1
  unfolding make_waiter
  make_waiter-IsValid = record {
    bounded = All-append IsBounded r.channels ([] ∷ []) v.bounded (omega arith);
    in_range = fresh_in_range;
    unshared = fresh_unshared;
  }

  pub ensure_waiter-IsValid : IsValid (ensure_waiter t r).1
  unfolding ensure_waiter
  ensure_waiter-IsValid = elim (Option-cases (lookup t r.waiters)) [
    | inl e ↦ rw (e, ensure_waiter) make_waiter-IsValid
    | inr (ch, e) ↦ rw (e, ensure_waiter) v
  ]

  pub clear_waiter-IsValid : IsValid (clear_waiter t r)
  unfolding clear_waiter
  clear_waiter-IsValid = record {
    bounded = v.bounded;
    in_range = λ s ch e. ground (arith, lookup-delete t s r.waiters, v.in_range s ch);
    unshared = λ s u ch e f.
        ground (arith, lookup-delete t s r.waiters, lookup-delete t u r.waiters, v.unshared s u ch);
  }

pub offer-IsValid : (ch : ℕ) (f : OutFrame) (r : Registry) → IsValid r → IsValid (offer ch f r)
unfolding offer
offer-IsValid ch f r v = elim (Bool-cases (ltb (length q) channel_capacity)) [
  | inl room ↦ rw room (set-IsValid r ch (q ++ f ∷ []) v (fits room))
  | inr full ↦ rw full v
]
  where
    q : List OutFrame
    q = buffer_at ch r.channels

    fits : ltb (length q) channel_capacity ≡ true → IsBounded (q ++ f ∷ [])
    fits room = ground (arith, length-append q (f ∷ []))

pub deliver_out_frame-IsValid :
    (f : OutFrame) (r : Registry) → IsValid r → IsValid (deliver_out_frame f r)
unfolding deliver_out_frame
deliver_out_frame-IsValid f r v = elim (Option-cases (lookup f.thread_id r.waiters)) [
  | inl e ↦ rw (e, deliver_out_frame) v
  | inr (ch, e) ↦ rw (e, deliver_out_frame) (offer-IsValid ch f r v)
]

poll-IsValid : (ch : ℕ) (d p : Bool) (r : Registry) → IsValid r → IsValid (poll ch d p r).1
unfolding poll
poll-IsValid ch d p r v = go (buffer_at ch r.channels) refl
  where
    go : (q : List OutFrame) → buffer_at ch r.channels ≡ q → IsValid (poll ch d p r).1
    go [] e = rw (e, poll) v
    go (f ∷ rest) e = elim (Bool-cases (d && p)) [
      | inl stop ↦ rw (e, poll, stop) v
      | inr more ↦
          rw (e, poll, more)
            (set-IsValid r ch rest v
              (omega (arith, ap length e, buffer_at-IsBounded ch r.channels v.bounded)))
    ]

pub send_question-IsValid :
    (id : ℕ) (f : InFrame) (r : Registry) → IsValid r → IsValid (send_question id f r).1
unfolding send_question
send_question-IsValid id f r v = elim (Option-cases (lookup id r.buddies)) [
  | inl e ↦ rw (e, send_question) v
  | inr (b, e) ↦ rw (e, send_question) (ensure_waiter-IsValid r v f.thread_id)
]

pub register_buddy-IsValid :
    (id w : ℕ) (r : Registry) → IsValid r → IsValid (register_buddy id w r).1
unfolding register_buddy
register_buddy-IsValid id w r v = record {
  bounded = v.bounded;
  in_range = v.in_range;
  unshared = v.unshared;
}

pub unregister-IsValid : (id g : ℕ) (r : Registry) → IsValid r → IsValid (unregister id g r)
unfolding unregister
unregister-IsValid id g r v = elim (Bool-cases (is_gen g (lookup id r.buddies))) [
  | inl e ↦ rw e (record { bounded = v.bounded; in_range = v.in_range; unshared = v.unshared })
  | inr e ↦ rw e v
]

step-IsValid : (op : Op) (r : Registry) → IsValid r → IsValid (step op r)
unfolding step wait_for_frame
step-IsValid (registers id w) r v = register_buddy-IsValid id w r v
step-IsValid (unregisters id g) r v = unregister-IsValid id g r v
step-IsValid (sends id f) r v = send_question-IsValid id f r v
step-IsValid (delivers f) r v = deliver_out_frame-IsValid f r v
step-IsValid (waits t d p) r v =
    poll-IsValid (ensure_waiter t r).0 d p (ensure_waiter t r).1 (ensure_waiter-IsValid r v t)
step-IsValid (polls ch d p) r v = poll-IsValid ch d p r v
step-IsValid (clears t) r v = clear_waiter-IsValid r v t

pub new_registry-IsValid : IsValid new_registry
unfolding lookup
new_registry-IsValid = record { bounded = tt; in_range = λ t ch e. cc; unshared = λ s t ch e f. cc }

-- From a valid registry, whatever the operations and their order, every waiter channel holds at
-- most 4 frames, every map entry names a channel that was made, and two threads never share one.
pub run-IsValid : (ops : List Op) (r : Registry) → IsValid r → IsValid (run ops r)
unfolding run
run-IsValid [] r v = v
run-IsValid (op ∷ ops) r v = run-IsValid ops (step op r) (step-IsValid op r v)
