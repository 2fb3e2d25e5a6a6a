-- ===== src/Store/History/Inserts.antt =====
-- The INSERTs and SELECTs of server/internal/store/{threads,messages}.go and the history of the tables.
use clawgard.Prelude.{
  ℕ, ◌≡◌, refl, ap, inl, inr, String, true, false, [], ◌∷◌, ◌++◌, arith, exists, find?, All-map,
  All-append, Bool-cases, Option-cases, nat_eq,
}
use clawgard.Exec.Respects.{Respects-atom}
use clawgard.Store.Db.{Db, ThreadRow}
use clawgard.Store.Threads.{has_id, insert_thread, new_row, select_thread}
use clawgard.Store.Messages.{NewMessage, message_row, is_acceptable, insert_message}
use clawgard.Store.History.{
  Grows, Grows-refl, Grows-append, exists-Grows, UniqueIds-append, ThreadAdvances,
  ThreadAdvances-refl, BuddyAdvances, BuddyAdvances-refl, IsSoundThread, IsSoundMessage, Evolves,
  Evolves-order,
}
use clawgard.Store.History.Statements.{Sound}

-- A new thread comes behind the others, under a key that none has.
insert_thread-Evolves :
    (id buddy_id : ℕ) (email : String) (db : Db)
    → exists (has_id id) db.threads ≡ false
    → Evolves db (record db { threads = db.threads ++ new_row id buddy_id email db.now ∷ [] })
insert_thread-Evolves id buddy_id email db fresh = record {
  advances = record {
    threads = grown;
    buddies = Grows-refl BuddyAdvances BuddyAdvances-refl db.buddies;
    messages = Grows-refl (λ m n. n ≡ m) (λ m. refl) db.messages;
    clock = omega arith;
  };
  sound = λ s. record {
    threads = All-append (IsSoundThread db.now) db.threads (row ∷ []) s.threads (row-sound, tt);
    unique = UniqueIds-append (λ r. r.id) db.threads row s.unique fresh;
    messages =
        All-map (IsSoundMessage db.threads) (IsSoundMessage (db.threads ++ row ∷ [])) db.messages
          (λ m h. record {
            has_thread =
                exists-Grows ThreadAdvances (has_id m.thread_id)
                  (λ r t a. ap (λ k. nat_eq k m.thread_id) a.same_id) db.threads
                  (db.threads ++ row ∷ []) grown h.has_thread;
            known_role = h.known_role;
            known_type = h.known_type;
          })
          s.messages;
    modes = s.modes;
  };
}
  where
    row : ThreadRow
    row = new_row id buddy_id email db.now

    row-sound : IsSoundThread db.now row
    row-sound = omega arith

    grown : Grows ThreadAdvances db.threads (db.threads ++ row ∷ [])
    grown = Grows-append ThreadAdvances ThreadAdvances-refl db.threads (row ∷ [])

pub insert_thread-Sound :
    (id buddy_id : ℕ) (email : String) → Sound (insert_thread id buddy_id email)
unfolding insert_thread
insert_thread-Sound id buddy_id email = Respects-atom _ (λ db.
    elim (Bool-cases (exists (has_id id) db.threads)) [
      | inl used ↦ rw used (Evolves-order.same db)
      | inr fresh ↦ rw fresh (elim (Bool-cases (exists (λ b. nat_eq b.id buddy_id) db.buddies)) [
        | inl known ↦ rw known (insert_thread-Evolves id buddy_id email db fresh)
        | inr unknown ↦ rw unknown (Evolves-order.same db)
      ])
    ])

pub select_thread-Sound : (id : ℕ) → Sound (select_thread id)
unfolding select_thread
select_thread-Sound id = Respects-atom _ (λ db. elim (Option-cases (find? (has_id id) db.threads)) [
  | inl e ↦ rw (e, select_thread) (Evolves-order.same db)
  | inr (row, e) ↦ rw (e, select_thread) (Evolves-order.same db)
])

insert_message-Evolves :
    (id : ℕ) (m : NewMessage) (db : Db)
    → is_acceptable id m db ≡ true
    → Evolves db (record db { messages = db.messages ++ message_row id m db.now ∷ [] })
insert_message-Evolves id m db h = record {
  advances = record {
    threads = Grows-refl ThreadAdvances ThreadAdvances-refl db.threads;
    buddies = Grows-refl BuddyAdvances BuddyAdvances-refl db.buddies;
    messages = Grows-append (λ x y. y ≡ x) (λ x. refl) db.messages (message_row id m db.now ∷ []);
    clock = omega arith;
  };
  sound = λ s. record {
    threads = s.threads;
    unique = s.unique;
    messages =
        All-append (IsSoundMessage db.threads) db.messages (message_row id m db.now ∷ []) s.messages
          (added, tt);
    modes = s.modes;
  };
}
  where
    added : IsSoundMessage db.threads (message_row id m db.now)
    added = record {
      has_thread = ground arith;
      known_role = ground arith;
      known_type = ground arith;
    }

pub insert_message-Sound : (id : ℕ) (m : NewMessage) → Sound (insert_message id m)
unfolding insert_message
insert_message-Sound id m = Respects-atom _ (λ db. elim (Bool-cases (is_acceptable id m db)) [
  | inl fine ↦ rw fine (insert_message-Evolves id m db fine)
  | inr bad ↦ rw bad (Evolves-order.same db)
])
