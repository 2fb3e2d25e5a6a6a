-- ===== src/Router/Registry/Replies.antt =====
-- Replies in server/internal/router/registry.go: what a thread's waiter channel holds after frames
-- are delivered, and what the waiter receives.
use clawgard.Prelude.{
  ℕ, zero, suc, ◌≤◌, ◌<◌, ◌≡◌, refl, sym, ap, subst, ◌∙◌, inl, inr, String, Bool, true, false, ◌&&◌,
  Option, none, some, List, [], ◌∷◌, ◌++◌, map, arith, ltb, ◌==◌, Comparable-ℕ, Comparable-String,
  eq_iff, if◌then◌else◌, Bool-cases, Option-cases, length, set, take, keep,
}
use mathlib.Core.List.{append-nil, append_assoc}
use clawgard.Assoc.{lookup, lookup-put}
use clawgard.Router.Registry.{
  InFrame, OutFrame, BuddyEntry, Registry, channel_capacity, buffer_at, is_some, make_waiter,
  ensure_waiter, send_question, offer, deliver_out_frame, poll, wait_for_frame, received, delivers,
  step, run,
}
use clawgard.Router.Registry.Invariant.{
  IsValid, IsBounded, buffer_at-IsBounded, deliver_out_frame-IsValid, send_question-IsValid,
}

-- The frames that the waiter of a thread has not read yet.
abbrev pub held : Option ℕ → Registry → List OutFrame
held none r = []
held (some ch) r = buffer_at ch r.channels

abbrev pub pending : String → Registry → List OutFrame
pending t r = held (lookup t r.waiters) r

abbrev pub has_waiter : String → Registry → Bool
has_waiter t r = is_some (lookup t r.waiters)

buffer_at-set :
    (chans : List (List OutFrame)) (i j : ℕ) (q : List OutFrame)
    → i < length chans
    → buffer_at j (set chans i q) ≡ (if i == j then q else buffer_at j chans)
buffer_at-set [] i j q h = absurd (omega arith)
buffer_at-set (c ∷ chans) zero zero q h = refl
buffer_at-set (c ∷ chans) zero (suc j) q h = ground arith
buffer_at-set (c ∷ chans) (suc i) zero q h = ground arith
buffer_at-set (c ∷ chans) (suc i) (suc j) q h =
    ground (arith, buffer_at-set chans i j q (omega arith))

buffer_at-append :
    (chans : List (List OutFrame)) (i : ℕ) → buffer_at i (chans ++ [] ∷ []) ≡ buffer_at i chans
buffer_at-append [] zero = refl
buffer_at-append [] (suc i) = refl
buffer_at-append (c ∷ chans) zero = refl
buffer_at-append (c ∷ chans) (suc i) = buffer_at-append chans i

waiters-deliver : (f : OutFrame) (r : Registry) → (deliver_out_frame f r).waiters ≡ r.waiters
unfolding deliver_out_frame
waiters-deliver f r = ground arith

buffer_at-offer :
    (ch j : ℕ) (f : OutFrame) (r : Registry)
    → ch < length r.channels
    → buffer_at j (offer ch f r).channels ≡ (
        if ch == j && ltb (length (buffer_at ch r.channels)) channel_capacity
        then buffer_at ch r.channels ++ f ∷ []
        else buffer_at j r.channels)
unfolding offer
buffer_at-offer ch j f r h =
    ground (arith, buffer_at-set r.channels ch j (buffer_at ch r.channels ++ f ∷ []) h)

waiters-offer : (ch : ℕ) (f : OutFrame) (r : Registry) → (offer ch f r).waiters ≡ r.waiters
unfolding offer
waiters-offer ch f r = ground arith

same_channel :
    (s t : String) (r : Registry) (ch : ℕ)
    → s ≡ t
    → lookup s r.waiters ≡ some ch
    → lookup t r.waiters ≡ some ch
same_channel s t r ch e h = subst (λ u. lookup u r.waiters ≡ some ch) e h

no_channel :
    (s t : String) (r : Registry) → s ≡ t → lookup s r.waiters ≡ none → lookup t r.waiters ≡ none
no_channel s t r e h = subst (λ u. lookup u r.waiters ≡ none) e h

pending-offer :
    (t : String) (f : OutFrame) (r : Registry) (ch : ℕ)
    → IsValid r
    → lookup f.thread_id r.waiters ≡ some ch
    → pending t (offer ch f r) ≡ (
        if f.thread_id == t && has_waiter t r && ltb (length (pending t r)) channel_capacity
        then pending t r ++ f ∷ []
        else pending t r)
pending-offer t f r ch v e = rw waiters-offer (elim (Option-cases (lookup t r.waiters)) [
  | inl e' ↦ rw e' (ground (arith, eq_iff f.thread_id t, same_channel f.thread_id t r ch))
  | inr (j, e') ↦ rw e' (
      ground (
        arith,
        eq_iff f.thread_id t,
        same_channel f.thread_id t r ch,
        v.unshared f.thread_id t ch e,
        buffer_at-offer ch j f r (v.in_range f.thread_id ch e),
      ))
])

-- Delivering a frame appends it to the channel of its own thread if somebody waits there and the
-- channel holds fewer than 4 frames; otherwise, and for every other thread, nothing changes.
pub pending-deliver :
    (t : String) (f : OutFrame) (r : Registry)
    → IsValid r
    → pending t (deliver_out_frame f r) ≡ (
        if f.thread_id == t && has_waiter t r && ltb (length (pending t r)) channel_capacity
        then pending t r ++ f ∷ []
        else pending t r)
unfolding deliver_out_frame
pending-deliver t f r v = elim (Option-cases (lookup f.thread_id r.waiters)) [
  | inl e ↦
      rw (e, deliver_out_frame) (ground (arith, eq_iff f.thread_id t, no_channel f.thread_id t r))
  | inr (ch, e) ↦ rw (e, deliver_out_frame) (pending-offer t f r ch v e)
]

take-short {ℓ} : {A : Type ℓ} (n : ℕ) (xs : List A) → length xs ≤ n → take n xs ≡ xs
take-short zero [] h = refl
take-short zero (x ∷ xs) h = absurd (omega arith)
take-short (suc n) [] h = refl
take-short (suc n) (x ∷ xs) h = ap (λ l. x ∷ l) (take-short n xs (omega arith))

take-full {ℓ} : {A : Type ℓ} (n : ℕ) (xs ys : List A) → length xs ≡ n → take n (xs ++ ys) ≡ xs
take-full zero [] ys h = refl
take-full zero (x ∷ xs) ys h = absurd (omega arith)
take-full (suc n) [] ys h = absurd (omega arith)
take-full (suc n) (x ∷ xs) ys h = ap (λ l. x ∷ l) (take-full n xs ys (omega arith))

pending-IsBounded : (t : String) (r : Registry) → IsValid r → IsBounded (pending t r)
pending-IsBounded t r v = elim (Option-cases (lookup t r.waiters)) [
  | inl e ↦ rw e (omega arith)
  | inr (ch, e) ↦ rw e (buffer_at-IsBounded ch r.channels v.bounded)
]

-- Frames for the thread, in the order of their arrival.
abbrev pub for_thread : String → List OutFrame → List OutFrame
for_thread t fs = keep (λ f. f.thread_id == t) fs

first_four :
    (p rest : List OutFrame) (f : OutFrame)
    → IsBounded p
    → take channel_capacity ((if ltb (length p) channel_capacity then p ++ f ∷ [] else p) ++ rest)
      ≡ take channel_capacity (p ++ (f ∷ rest))
first_four p rest f b = elim (Bool-cases (ltb (length p) channel_capacity)) [
  | inl room ↦ rw (room, append_assoc)
  | inr full ↦
      let e : length p ≡ channel_capacity = ground arith in
      rw full (take-full _ p rest e ∙ sym (take-full _ p (f ∷ rest) e))
]

deliveries_step :
    (t : String) (f : OutFrame) (fs : List OutFrame) (r : Registry)
    → IsValid r
    → has_waiter t r ≡ true
    → take channel_capacity (pending t (deliver_out_frame f r) ++ for_thread t fs)
      ≡ take channel_capacity (pending t r ++ for_thread t (f ∷ fs))
deliveries_step t f fs r v w = elim (Bool-cases (f.thread_id == t)) [
  | inl mine ↦
      rw (pending-deliver t f r v, mine, w)
        (first_four (pending t r) (for_thread t fs) f (pending-IsBounded t r v))
  | inr other ↦ rw (pending-deliver t f r v, other)
]

-- Whatever is delivered, and to whichever threads, the channel of a thread that somebody waits for
-- holds the first four of what it held and of what came for it, in that order.
pub pending-deliveries :
    (t : String) (fs : List OutFrame) (r : Registry)
    → IsValid r
    → has_waiter t r ≡ true
    → pending t (run (map delivers fs) r) ≡ take channel_capacity (pending t r ++ for_thread t fs)
unfolding run step
pending-deliveries t [] r v w =
    rw append-nil (sym (take-short channel_capacity (pending t r) (pending-IsBounded t r v)))
pending-deliveries t (f ∷ fs) r v w =
    pending-deliveries t fs (deliver_out_frame f r) (deliver_out_frame-IsValid f r v)
      (rw waiters-deliver w)
    ∙ deliveries_step t f fs r v w

has_waiter-deliveries :
    (t : String) (fs : List OutFrame) (r : Registry)
    → has_waiter t (run (map delivers fs) r) ≡ has_waiter t r
unfolding run step
has_waiter-deliveries t [] r = refl
has_waiter-deliveries t (f ∷ fs) r =
    has_waiter-deliveries t fs (deliver_out_frame f r)
    ∙ ap (λ m. is_some (lookup t m)) (waiters-deliver f r)

-- Sending to a connected buddy leaves a waiter for the thread, and its channel as it was.
send_question-waiter :
    (id : ℕ) (e : BuddyEntry) (q : InFrame) (r : Registry)
    → lookup id r.buddies ≡ some e
    → has_waiter q.thread_id (send_question id q r).1 ≡ true
unfolding send_question make_waiter
send_question-waiter id e q r h = ground (
  arith,
  lookup-put q.thread_id q.thread_id (length r.channels) r.waiters,
  eq_iff q.thread_id q.thread_id,
)

buffer_at-length : (chans : List (List OutFrame)) → buffer_at (length chans) (chans ++ [] ∷ []) ≡ []
buffer_at-length [] = refl
buffer_at-length (c ∷ chans) = buffer_at-length chans

send_question-pending :
    (id : ℕ) (e : BuddyEntry) (q : InFrame) (r : Registry)
    → lookup id r.buddies ≡ some e
    → pending q.thread_id (send_question id q r).1 ≡ pending q.thread_id r
unfolding send_question make_waiter
send_question-pending id e q r h = ground (
  arith,
  lookup-put q.thread_id q.thread_id (length r.channels) r.waiters,
  eq_iff q.thread_id q.thread_id,
  buffer_at-length r.channels,
)

poll-receives :
    (ch : ℕ) (p : Bool) (r : Registry) (f : OutFrame) (fs : List OutFrame)
    → buffer_at ch r.channels ≡ f ∷ fs
    → (poll ch false p r).0 ≡ received f
unfolding poll
poll-receives ch p r f fs h = ground arith

wait_for_frame-receives :
    (t : String) (p : Bool) (r : Registry) (f : OutFrame) (fs : List OutFrame)
    → pending t r ≡ f ∷ fs
    → (wait_for_frame t false p r).0 ≡ received f
unfolding wait_for_frame
wait_for_frame-receives t p r f fs h = elim (Option-cases (lookup t r.waiters)) [
  | inl e ↦ ground arith
  | inr (ch, e) ↦ rw (e, ensure_waiter) (poll-receives ch p r f fs (ground arith))
]

-- A reply that arrives between the question and the wait is not lost: after a question to a
-- connected buddy, on a thread whose channel holds nothing, and any frames for any threads, a wait
-- that is not cancelled receives the first frame that came for its thread.
pub reply_before_wait :
    (id : ℕ) (e : BuddyEntry) (q : InFrame) (r : Registry) (fs gs : List OutFrame) (g : OutFrame)
    (p : Bool)
    → IsValid r
    → lookup id r.buddies ≡ some e
    → pending q.thread_id r ≡ []
    → for_thread q.thread_id fs ≡ g ∷ gs
    → (wait_for_frame q.thread_id false p (run (map delivers fs) (send_question id q r).1)).0
      ≡ received g
reply_before_wait id e q r fs gs g p v on empty came =
    wait_for_frame-receives q.thread_id p _ g (take 3 gs) (
      pending-deliveries q.thread_id fs (send_question id q r).1 (send_question-IsValid id q r v)
        (send_question-waiter id e q r on)
      ∙ ap (λ l. take channel_capacity (l ++ for_thread q.thread_id fs))
          (send_question-pending id e q r on ∙ empty)
      ∙ ap (take channel_capacity) came)
