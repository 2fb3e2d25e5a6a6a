-- ===== src/Tests/Channels.antt =====
-- Examples for the registry of connections and waiters.
use clawgard.Prelude.{
  ◌≡◌, refl, true, false, none, some, [], ◌∷◌, arith, eq_iff, inr, Comparable-ℕ, Comparable-String,
}
use clawgard.Assoc.{lookup}
use clawgard.Router.Registry.{
  OutFrame, Registry, registers, unregisters, sends, delivers, clears, run, register_buddy,
  unregister, online, send_question, wait_for_frame, received, new_registry,
}
use clawgard.Router.Registry.Invariant.{IsValid, run-IsValid, new_registry-IsValid}
use clawgard.Router.Registry.Connections.{registration_persists, register-unregister}
use clawgard.Router.Registry.Replies.{pending, pending-deliveries, reply_before_wait}
use clawgard.Tests.Fixtures.{registry, registry-IsValid, entry, answer_frame, question_frame}

abbrev other_frame : OutFrame
other_frame = record answer_frame { thread_id = "b" }

-- Another thread's reply comes first, and the cancel flag of the poll does not matter.
reply_before_wait_example :
    (wait_for_frame "a" false true (
      run
        (delivers other_frame ∷ delivers answer_frame ∷ [])
        (send_question 7 question_frame registry).1)).0
    ≡ received answer_frame
unfolding lookup
reply_before_wait_example =
    reply_before_wait 7 entry question_frame registry (other_frame ∷ answer_frame ∷ []) []
      answer_frame true registry-IsValid refl refl refl

abbrev waiting : Registry
waiting = record registry {
  waiters = ("a", 0) ∷ [];
  channels = (answer_frame ∷ answer_frame ∷ answer_frame ∷ []) ∷ [];
}

waiting-IsValid : IsValid waiting
unfolding lookup
waiting-IsValid = record {
  bounded = (omega arith, tt);
  in_range = λ t ch e. ground arith;
  unshared = λ s t ch e f. ground (arith, eq_iff "a" s, eq_iff "a" t);
}

pending-deliveries_example :
    pending "a"
      (run (delivers answer_frame ∷ delivers other_frame ∷ delivers answer_frame ∷ []) waiting)
    ≡ answer_frame ∷ answer_frame ∷ answer_frame ∷ answer_frame ∷ []
unfolding lookup
pending-deliveries_example =
    pending-deliveries "a" (answer_frame ∷ other_frame ∷ answer_frame ∷ []) waiting waiting-IsValid
      refl

registration_persists_example :
    lookup 7
      (run
        (unregisters 7 1 ∷ registers 8 5 ∷ clears "a" ∷ [])
        (register_buddy 7 2 registry).1).buddies
    ≡ some (record { writer = 2; gen = 2 })
unfolding register_buddy
registration_persists_example =
    registration_persists 7 2 (unregisters 7 1 ∷ registers 8 5 ∷ clears "a" ∷ []) registry
      (inr (omega arith), ((λ e. omega arith), (tt, tt)))

register-unregister_example :
    (lookup 7 (register_buddy 7 2 registry).1.buddies ≡ some (record { writer = 2; gen = 2 }))
    × (unregister 7 1 (register_buddy 7 2 registry).1 ≡ (register_buddy 7 2 registry).1)
    × (online 7 (unregister 7 2 (register_buddy 7 2 registry).1) ≡ false)
    × (lookup 8 (unregister 7 2 (register_buddy 7 2 registry).1).buddies ≡ none)
unfolding register_buddy lookup
register-unregister_example =
    register-unregister 7 2 1 8 registry (omega arith) (omega arith) (omega arith)

run-IsValid_example :
    IsValid (run (registers 7 2 ∷ sends 7 question_frame ∷ delivers answer_frame ∷ []) new_registry)
run-IsValid_example =
    run-IsValid (registers 7 2 ∷ sends 7 question_frame ∷ delivers answer_frame ∷ []) new_registry
      new_registry-IsValid
