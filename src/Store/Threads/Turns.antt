-- ===== src/Store/Threads/Turns.antt =====
-- `IncrementTurns` of server/internal/store/threads.go on every branch.
use clawgard.Prelude.{
  ℕ, ◌+◌, ◌≤◌, ◌≡◌, refl, sym, ap, ◌∙◌, inl, inr, true, false, Option, none, some, List, [], ◌∷◌,
  arith, ltb, ◌==◌, Comparable-ℕ, Comparable-String, if◌then◌else◌, find?, exists, update_where,
  Bool-cases, Option-cases, nat_eq, nat_eq_iff, find?-holds,
}
use clawgard.Exec.{Result, ok, err, resume, leave, ◌>>=◌}
use clawgard.Store.Db.{
  Db, ThreadRow, Status, open_status, closed_status, Error, thread_not_found, turn_cap_exceeded,
  thread_closed,
}
use clawgard.Store.Db.Calm.{statement-calm}
use clawgard.Store.History.{UniqueIds}
use clawgard.Store.Threads.{
  Thread, scan_thread, has_id, is_open, max_turns, bumps, bumped_row, select_thread, get,
  or_not_found, update_turns, explain, increment_turns,
}

-- What the caller is told, by the thread as it stands.
abbrev pub turn_answer : Option ThreadRow → Result Error ℕ
turn_answer none = err thread_not_found
turn_answer (some r) =
    if is_open r.status
    then (if ltb r.turns max_turns then ok (r.turns + 1) else err (turn_cap_exceeded r.turns))
    else err (thread_closed r.turns)

abbrev if_bumps : ℕ → Option ThreadRow → Option ThreadRow
if_bumps id none = none
if_bumps id (some r) = if bumps id r then some r else none

no_bumps :
    (id : ℕ) (rows : List ThreadRow)
    → exists (λ y. y.id == id) rows ≡ false
    → find? (bumps id) rows ≡ none
no_bumps id [] h = refl
no_bumps id (x ∷ xs) h = ground (arith, no_bumps id xs)

-- Keys being unique, the row that the UPDATE meets is the row of the key.
find-bumps :
    (id : ℕ) (rows : List ThreadRow)
    → UniqueIds (λ r. r.id) rows
    → find? (bumps id) rows ≡ if_bumps id (find? (has_id id) rows)
find-bumps id [] u = refl
find-bumps id (x ∷ xs) u = elim (Bool-cases (nat_eq x.id id)) [
  | inl mine ↦ ground (
    arith,
    no_bumps id xs,
    nat_eq_iff x.id id,
    ap (λ k. exists (λ y. y.id == k) xs) {x = x.id} {y = id},
  )
  | inr other ↦ ground (arith, find-bumps id xs u.1)
]

update_where-none :
    (id : ℕ) (f : ThreadRow → ThreadRow) (rows : List ThreadRow)
    → find? (bumps id) rows ≡ none
    → update_where (bumps id) f rows ≡ rows
update_where-none id f [] h = refl
update_where-none id f (x ∷ xs) h = ground (arith, update_where-none id f xs)

pub get-calm :
    (id : ℕ) (db : Db) → db.schedule ≡ [] → get id db ≡ or_not_found (select_thread id db)
unfolding get
get-calm id db e = ap or_not_found (statement-calm (select_thread id) db e)

-- What `Get` after a refused UPDATE makes of the thread.
abbrev explained : Option ThreadRow → Result Error ℕ
explained none = err thread_not_found
explained (some r) =
    if is_open r.status then err (turn_cap_exceeded r.turns) else err (thread_closed r.turns)

explain-calm :
    (id : ℕ) (db : Db)
    → db.schedule ≡ []
    → explain id db ≡ (explained (find? (has_id id) db.threads), db)
unfolding explain ◌>>=◌ select_thread
explain-calm id db e = rw (get-calm id db e) (elim (Option-cases (find? (has_id id) db.threads)) [
  | inl missing ↦ rw (missing, select_thread)
  | inr (r, there) ↦ rw (there, select_thread) (by_status r r.status refl)
])
  where
    by_status :
        (r : ThreadRow) (s : Status)
        → r.status ≡ s
        → resume {A = Thread}
            (ok (scan_thread r))
            (λ t.
              leave
                (if t.status == "closed" then thread_closed t.turns else turn_cap_exceeded t.turns))
            db
          ≡ (explained (some r), db)
    by_status r open_status h = rw h
    by_status r closed_status h = rw h

explained-answer :
    (id : ℕ) (o : Option ThreadRow)
    → ((r : ThreadRow) → o ≡ some r → has_id id r ≡ true)
    → if_bumps id o ≡ none
    → explained o ≡ turn_answer o
explained-answer id none f h = refl
explained-answer id (some r) f h = ground (arith, f r refl)

bumped-answer :
    (id : ℕ) (o : Option ThreadRow) (row : ThreadRow)
    → if_bumps id o ≡ some row
    → ok (row.turns + 1) ≡ turn_answer o
bumped-answer id none row h = cc
bumped-answer id (some r) row h = ground arith

abbrev paired : Db → Result Error ℕ → Result Error ℕ × Db
paired db a = (a, db)

-- While statements run, and keys are unique: a thread that is open below 3 turns gains a turn and
-- its new count is returned; one at 3 turns, a closed one and a missing one are told apart in the
-- error, and nothing but the thread's own row is ever written.
pub increment_turns_lem :
    (id : ℕ) (db : Db)
    → db.schedule ≡ []
    → UniqueIds (λ r. r.id) db.threads
    → increment_turns id db ≡ (
      turn_answer (find? (has_id id) db.threads),
      record db { threads = update_where (bumps id) (bumped_row db.now) db.threads },
    )
unfolding increment_turns update_turns
increment_turns_lem id db e u =
    rw (statement-calm (update_turns id) db e) (elim (Option-cases (find? (bumps id) db.threads)) [
      | inl none_met ↦
          rw (none_met, update_turns, update_where-none id (bumped_row db.now) db.threads none_met)
            (explain-calm id db e
              ∙ ap (paired db) (
                  explained-answer id (find? (has_id id) db.threads)
                    (find?-holds (has_id id) db.threads)
                    (sym (find-bumps id db.threads u) ∙ none_met)))
      | inr (row, met) ↦
          rw (met, update_turns)
            (ap
              (paired
                (record db { threads = update_where (bumps id) (bumped_row db.now) db.threads }))
              (bumped-answer id (find? (has_id id) db.threads) row
                (sym (find-bumps id db.threads u) ∙ met)))
    ])

pub get-found :
    (id : ℕ) (row : ThreadRow) (db : Db)
    → db.schedule ≡ []
    → find? (has_id id) db.threads ≡ some row
    → get id db ≡ (ok (scan_thread row), db)
unfolding select_thread
get-found id row db e h = get-calm id db e ∙ rw (h, select_thread)

-- At the cap nothing is written.
pub increment_turns-capped :
    (id : ℕ) (row : ThreadRow) (db : Db)
    → db.schedule ≡ []
    → UniqueIds (λ r. r.id) db.threads
    → find? (has_id id) db.threads ≡ some row
    → row.status ≡ open_status
    → max_turns ≤ row.turns
    → increment_turns id db ≡ (err (turn_cap_exceeded row.turns), db)
increment_turns-capped id row db e u h is_open_row full =
    increment_turns_lem id db e u
    ∙ rw
        (
          h,
          is_open_row,
          full_row,
          update_where-none id (bumped_row db.now) db.threads
              (find-bumps id db.threads u ∙ ap (if_bumps id) h ∙ none_bumps),
        )
        refl
  where
    full_row : ltb row.turns max_turns ≡ false
    full_row = ground arith

    none_bumps : if_bumps id (some row) ≡ none
    none_bumps = ground arith
