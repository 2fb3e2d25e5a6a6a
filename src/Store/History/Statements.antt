-- ===== src/Store/History/Statements.antt =====
-- The UPDATEs of server/internal/store/threads.go and the history of the tables.
use clawgard.Prelude.{
  ℕ, ◌+◌, ◌≤◌, ◌≡◌, refl, ap, inl, inr, String, Bool, true, List, [], ◌∷◌, arith, find?,
  update_where, All-map, update_where-All, Option-cases, nat_eq,
}
use clawgard.Exec.{Result}
use clawgard.Exec.Respects.{Respects-atom, Respects-at, Respects}
use clawgard.Store.Db.{
  Db, Tick, ThreadRow, Error, Sql, Outcome, works, refused, lost, pass_time, settle, tick_outcome,
  statement, new_uuid,
}
use clawgard.Store.Threads.{
  has_id, closes, closed_row, bumps, bumped_row, touched_row, update_close, update_turns,
  update_activity,
}
use clawgard.Store.History.{
  Grows, Grows-refl, Grows-update_where, exists-Grows, UniqueIds-update_where, ThreadAdvances,
  ThreadAdvances-refl, BuddyAdvances, BuddyAdvances-refl, IsSoundThread, IsSoundMessage, Evolves,
  Evolves-order,
}

-- An operation on the store that advances its history and keeps it sound.
abbrev pub Sound : {A : Type 0} → Sql A → Type 1
Sound m = Respects Evolves m

-- Soundness of a thread does not fail by time passing.
IsSoundThread-later : (m n : ℕ) → m ≤ n → (r : ThreadRow) → IsSoundThread m r → IsSoundThread n r
IsSoundThread-later m n h r s = record {
  capped = s.capped;
  closed_matches = s.closed_matches;
  active_after = s.active_after;
  active_before = omega (arith, s.active_before);
}

-- Time passes, and the schedule of outcomes moves on.
pub later-Evolves :
    (db : Db) (rest : List Tick) (n : ℕ)
    → Evolves db (record db { now = db.now + n; schedule = rest })
later-Evolves db rest n = record {
  advances = record {
    threads = Grows-refl ThreadAdvances ThreadAdvances-refl db.threads;
    buddies = Grows-refl BuddyAdvances BuddyAdvances-refl db.buddies;
    messages = Grows-refl (λ m n. n ≡ m) (λ m. refl) db.messages;
    clock = omega arith;
  };
  sound = λ s. record {
    threads =
        All-map (IsSoundThread db.now) (IsSoundThread (db.now + n)) db.threads
          (IsSoundThread-later db.now (db.now + n) (omega arith)) s.threads;
    unique = s.unique;
    messages = s.messages;
    modes = s.modes;
  };
}

pub pass_time-Evolves : (db : Db) → Evolves db (pass_time db)
pass_time-Evolves db = go db.schedule
  where
    go :
        (ts : List Tick)
        → Evolves db (elim ts [
          | [] ↦ db
          | t ∷ rest ↦ record db { now = db.now + t.elapsed; schedule = rest }
        ])
    go [] = Evolves-order.same db
    go (t ∷ rest) = later-Evolves db rest t.elapsed

settle-Evolves :
    {A : Type 0} (o : Outcome) (db db' d : Db) (r : Result Error A)
    → Evolves d db
    → Evolves db db'
    → Evolves d (settle o db (r, db')).1
settle-Evolves works db db' d r x y = Evolves-order.next d db db' x y
settle-Evolves refused db db' d r x y = x
settle-Evolves lost db db' d r x y = Evolves-order.next d db db' x y

pub statement-Sound : {A : Type 0} (body : Sql A) → Sound body → Sound (statement body)
unfolding statement
statement-Sound body h = Respects-atom _ (λ db.
    settle-Evolves (tick_outcome db.schedule) (pass_time db) (body (pass_time db)).1 db
      (body (pass_time db)).0 (pass_time-Evolves db) (Respects-at Evolves-order h (pass_time db)))

-- A read leaves the store as it is.
pub read-Sound : {A : Type 0} (f : Db → Result Error A) → Sound (λ db. (f db, db))
read-Sound f = Respects-atom _ (λ db. Evolves-order.same db)

pub new_uuid-Sound : Sound new_uuid
unfolding new_uuid
new_uuid-Sound = Respects-atom _ (λ db. record {
  advances = record {
    threads = Grows-refl ThreadAdvances ThreadAdvances-refl db.threads;
    buddies = Grows-refl BuddyAdvances BuddyAdvances-refl db.buddies;
    messages = Grows-refl (λ m n. n ≡ m) (λ m. refl) db.messages;
    clock = omega arith;
  };
  sound = λ s. record {
    threads = s.threads;
    unique = s.unique;
    messages = s.messages;
    modes = s.modes;
  };
})

-- An UPDATE of threads: each row that it changes advances and stays sound.
module _ (p : ThreadRow → Bool) (f : ℕ → ThreadRow → ThreadRow) where
  abbrev update_threads : Db → Db
  update_threads db = record db { threads = update_where p (f db.now) db.threads }

  update_threads-Evolves :
      ((now : ℕ) (r : ThreadRow) → p r ≡ true → ThreadAdvances r (f now r))
      → ((now : ℕ) (r : ThreadRow) → IsSoundThread now r → p r ≡ true → IsSoundThread now (f now r))
      → ((now : ℕ) (r : ThreadRow) → (f now r).id ≡ r.id)
      → (db : Db) → Evolves db (update_threads db)
  update_threads-Evolves adv sound same db = record {
    advances = record {
      threads = grown;
      buddies = Grows-refl BuddyAdvances BuddyAdvances-refl db.buddies;
      messages = Grows-refl (λ m n. n ≡ m) (λ m. refl) db.messages;
      clock = omega arith;
    };
    sound = λ s. record {
      threads =
          update_where-All (IsSoundThread db.now) p (f db.now) db.threads (sound db.now) s.threads;
      unique = UniqueIds-update_where (λ r. r.id) p (f db.now) db.threads (same db.now) s.unique;
      messages =
          All-map (IsSoundMessage db.threads) (IsSoundMessage (update_threads db).threads)
            db.messages
            (λ m h. record {
              has_thread =
                  exists-Grows ThreadAdvances (has_id m.thread_id)
                    (λ r t a. ap (λ k. nat_eq k m.thread_id) a.same_id) db.threads
                    (update_threads db).threads grown h.has_thread;
              known_role = h.known_role;
              known_type = h.known_type;
            })
            s.messages;
      modes = s.modes;
    };
  }
    where
      grown : Grows ThreadAdvances db.threads (update_threads db).threads
      grown =
          Grows-update_where ThreadAdvances ThreadAdvances-refl p (f db.now) db.threads (adv db.now)

closed_row-advances :
    (id : ℕ) (reason : String) (now : ℕ) (r : ThreadRow)
    → closes id r ≡ true
    → ThreadAdvances r (closed_row now reason r)
closed_row-advances id reason now r h = ground arith

closed_row_sound :
    (id : ℕ) (reason : String) (now : ℕ) (r : ThreadRow)
    → IsSoundThread now r
    → closes id r ≡ true
    → IsSoundThread now (closed_row now reason r)
closed_row_sound id reason now r s h = ground arith

pub update_close-Sound : (id : ℕ) (reason : String) → Sound (update_close id reason)
unfolding update_close
update_close-Sound id reason = Respects-atom _ (
    update_threads-Evolves (closes id) (λ now. closed_row now reason)
      (closed_row-advances id reason) (closed_row_sound id reason) (λ now r. refl))

bumped_row-advances :
    (id now : ℕ) (r : ThreadRow) → bumps id r ≡ true → ThreadAdvances r (bumped_row now r)
bumped_row-advances id now r h = ground arith

bumped_row_sound :
    (id now : ℕ) (r : ThreadRow)
    → IsSoundThread now r
    → bumps id r ≡ true
    → IsSoundThread now (bumped_row now r)
bumped_row_sound id now r s h = ground arith

pub update_turns-Sound : (id : ℕ) → Sound (update_turns id)
unfolding update_turns
update_turns-Sound id = Respects-atom _ (λ db. elim (Option-cases (find? (bumps id) db.threads)) [
  | inl e ↦ rw (e, update_turns) (Evolves-order.same db)
  | inr (row, e) ↦
      rw (e, update_turns)
        (update_threads-Evolves (bumps id) bumped_row (bumped_row-advances id) (bumped_row_sound id)
          (λ now r. refl) db)
])

touched_row-advances : (now : ℕ) (r : ThreadRow) → ThreadAdvances r (touched_row now r)
touched_row-advances now r = ground arith

touched_row_sound :
    (now : ℕ) (r : ThreadRow) → IsSoundThread now r → IsSoundThread now (touched_row now r)
touched_row_sound now r s = ground arith

pub update_activity-Sound : (id : ℕ) → Sound (update_activity id)
unfolding update_activity
update_activity-Sound id = Respects-atom _ (
    update_threads-Evolves (has_id id) touched_row (λ now r _. touched_row-advances now r)
      (λ now r s _. touched_row_sound now r s) (λ now r. refl))
