-- ===== src/Store/Threads/Cap.antt =====
-- `IncrementTurns` of server/internal/store/threads.go under concurrency: what its successes tell,
-- whatever else happens to the tables between them.
use clawgard.Prelude.{
  ℕ, ◌+◌, ◌<◌, ◌≤◌, ◌≡◌, refl, ◌∙◌, sym, ap, inl, inr, Bool, true, false, ◌&&◌, some, none, List,
  [], ◌∷◌, arith, leb, ◌==◌, Comparable-ℕ, Comparable-String, nat_eq, nat_eq_iff, if◌then◌else◌,
  find?, exists, find?-holds, length, subst, update_where, Bool-cases, Option-cases,
}
use clawgard.Exec.{Result, ok, err, resume, leave, ◌>>=◌}
use clawgard.Store.Db.{
  Db, Tick, ThreadRow, Error, thread_closed, turn_cap_exceeded, pass_time, statement,
}
use clawgard.Store.Db.Calm.{statement-ok}
use clawgard.Store.History.{UniqueIds, Grows, ThreadAdvances, Advances}
use clawgard.Store.Threads.{
  Thread, max_turns, bumps, bumped_row, update_turns, get, explain, or_explain, increment_turns,
}

-- Some row of the thread counts `m` turns or more.
abbrev counts : ℕ → ℕ → ThreadRow → Bool
counts id m r = r.id == id && leb m r.turns

abbrev Counted : ℕ → ℕ → List ThreadRow → Type 0
Counted id m rows = exists (counts id m) rows ≡ true

counts-advances :
    (id m : ℕ) (r s : ThreadRow) → ThreadAdvances r s → counts id m r ≡ true → counts id m s ≡ true
counts-advances id m r s a h =
    ground (arith, a.same_id, a.turns_grow, nat_eq_iff r.id id, nat_eq_iff s.id id)

Counted-Grows :
    (id m : ℕ) (rows later : List ThreadRow)
    → Grows ThreadAdvances rows later
    → Counted id m rows
    → Counted id m later
Counted-Grows id m [] later g h = cc
Counted-Grows id m (r ∷ rows) [] g h = absurd g
Counted-Grows id m (r ∷ rows) (s ∷ later) g h =
    ground (arith, counts-advances id m r s g.0, Counted-Grows id m rows later g.1)

-- The row that the UPDATE met counts its turn.
Counted-bumped :
    (id now : ℕ) (rows : List ThreadRow) (row : ThreadRow)
    → find? (bumps id) rows ≡ some row
    → Counted id (row.turns + 1) (update_where (bumps id) (bumped_row now) rows)
Counted-bumped id now [] row h = cc
Counted-bumped id now (r ∷ rows) row h = elim (Bool-cases (bumps id r)) [
  | inl hit ↦ ground arith
  | inr miss ↦ ground (arith, Counted-bumped id now rows row)
]

none_counted :
    (id m : ℕ) (rows : List ThreadRow)
    → exists (λ y. y.id == id) rows ≡ false
    → exists (counts id m) rows ≡ false
none_counted id m [] h = refl
none_counted id m (r ∷ rows) h = ground (arith, none_counted id m rows)

none_bumped :
    (id : ℕ) (rows : List ThreadRow)
    → exists (λ y. y.id == id) rows ≡ false
    → find? (bumps id) rows ≡ none
none_bumped id [] h = refl
none_bumped id (r ∷ rows) h = ground (arith, none_bumped id rows)

-- Keys being unique, it is the row that counts.
Counted-found :
    (id m : ℕ) (rows : List ThreadRow) (row : ThreadRow)
    → UniqueIds (λ r. r.id) rows
    → Counted id m rows
    → find? (bumps id) rows ≡ some row
    → (m ≤ row.turns) × (row.turns < max_turns)
Counted-found id m [] row u c h = cc
Counted-found id m (r ∷ rows) row u c h = elim (Bool-cases (nat_eq r.id id)) [
  | inl mine ↦
      let alone : exists (λ y. y.id == id) rows ≡ false =
        ap (λ k. exists (λ y. y.id == k) rows) (sym ((nat_eq_iff r.id id).0 mine)) ∙ u.0 in
      ground (arith, none_counted id m rows alone, none_bumped id rows alone)
  | inr other ↦ ground (arith, Counted-found id m rows row u.1)
]

update_turns-ok :
    (id n : ℕ) (db db' : Db)
    → update_turns id db ≡ (ok n, db')
    → (row : ThreadRow) × (find? (bumps id) db.threads ≡ some row)
      × (n ≡ row.turns + 1)
      × (db'.threads ≡ update_where (bumps id) (bumped_row db.now) db.threads)
unfolding update_turns
update_turns-ok id n db db' h = elim (Option-cases (find? (bumps id) db.threads)) [
  | inl e ↦ absurd (refused (rw (e, update_turns) at h))
  | inr (row, e) ↦ let told = rw (e, update_turns) at h in (row, e, ground arith, ground arith)
]
  where
    refused : {e : Error} → ◌≡◌ {A = Result Error ℕ × Db} (err e, db) (ok n, db') → ⊥
    refused p = cc

pass_time-threads : (db : Db) → (pass_time db).threads ≡ db.threads
pass_time-threads db = go db.schedule
  where
    go :
        (ts : List Tick)
        → (elim ts as (λ _. Db) [
          | [] ↦ db
          | t ∷ rest ↦ record db { now = db.now + t.elapsed; schedule = rest }
        ]).threads
          ≡ db.threads
    go [] = refl
    go (t ∷ rest) = refl

explain_fails : (id n : ℕ) (db db' : Db) → ¬ (explain id db ≡ (ok n, db'))
unfolding explain ◌>>=◌
explain_fails id n db db' = by_read (get id db)
  where
    by_read :
        (x : Result Error Thread × Db)
        → ¬ (
            resume x.0
              (λ t.
                leave (
                  if t.status == "closed"
                  then thread_closed t.turns
                  else turn_cap_exceeded t.turns))
              x.1
            ≡ (ok n, db'))
    by_read (ok t, d) h = cc
    by_read (err e, d) h = cc

increment_turns-ok :
    (id n : ℕ) (db db' : Db)
    → increment_turns id db ≡ (ok n, db')
    → update_turns id (pass_time db) ≡ (ok n, db')
unfolding increment_turns
increment_turns-ok id n db db' h = by_update (statement (update_turns id) db) refl h
  where
    by_update :
        (x : Result Error ℕ × Db)
        → statement (update_turns id) db ≡ x
        → or_explain id x ≡ (ok n, db')
        → update_turns id (pass_time db) ≡ (ok n, db')
    by_update (ok k, d) e g = statement-ok (update_turns id) db db' n (e ∙ g)
    by_update (err k, d) e g = absurd (explain_fails id n d db' g)

-- Calls of `IncrementTurns` on one thread that succeed, in the order in which the database takes
-- them, with any operations of others before, between and after them.
pub data Increments (id : ℕ) : Db → List ℕ → Type 0 where
  quiet : {db : Db} → Increments id db []
  counted :
      {db db' d : Db} {n : ℕ} {ns : List ℕ}
      → UniqueIds (λ r. r.id) db.threads
      → increment_turns id db ≡ (ok n, db')
      → Advances db' d
      → Increments id d ns
      → Increments id db (n ∷ ns)

-- What a success leaves for the calls after it.
increment_turns-Counted :
    (id n : ℕ) (db db' d : Db)
    → increment_turns id db ≡ (ok n, db')
    → Advances db' d
    → (row : ThreadRow) × (find? (bumps id) db.threads ≡ some row)
      × Counted id (row.turns + 1) d.threads
increment_turns-Counted id n db db' d success between =
    let (row, met, told, left) =
      update_turns-ok id n (pass_time db) db' (increment_turns-ok id n db db' success) in
    (
      row,
      rw (pass_time-threads db) at met,
      Counted-Grows id (row.turns + 1) db'.threads d.threads between.threads (
          subst (Counted id (row.turns + 1)) (sym left)
            (Counted-bumped id (pass_time db).now (pass_time db).threads row met)),
    )

Increments-Counted :
    {id : ℕ} {db : Db} {ns : List ℕ}
    → Increments id db ns
    → (m : ℕ) → m ≤ max_turns
    → Counted id m db.threads
    → length ns + m ≤ max_turns
Increments-Counted quiet m h c = omega arith
Increments-Counted {id} {db} (counted {db' = db'} {d = d} {n = n} u success between rest) m h c =
    let (row, met, left) = increment_turns-Counted id n db db' d success between in
    let found = Counted-found id m db.threads row u c met in
    omega (arith, found.0, found.1, Increments-Counted rest (row.turns + 1) (omega arith) left)

bumps-below : (id : ℕ) (row : ThreadRow) → bumps id row ≡ true → row.turns < max_turns
bumps-below id row h = ground arith

-- However many calls of `IncrementTurns` are made on a thread, and whatever the other requests do to the
-- tables between them (as long as rows advance and the threads' keys are unique at each call), at most 3
-- of the calls succeed.
pub Increments-bounded :
    {id : ℕ} {db : Db} {ns : List ℕ} → Increments id db ns → length ns ≤ max_turns
Increments-bounded quiet = omega arith
Increments-bounded {id} {db} (counted {db' = db'} {d = d} {n = n} u success between rest) =
    let (row, met, left) = increment_turns-Counted id n db db' d success between in
    let below = bumps-below id row (find?-holds (bumps id) db.threads row met) in
    omega (arith, Increments-Counted rest (row.turns + 1) (omega arith) left)
