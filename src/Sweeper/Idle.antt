-- ===== src/Sweeper/Idle.antt =====
-- `RunOnce` of server/internal/sweeper/sweeper.go and the threads that it closes.
use clawgard.Prelude.{
  ℕ, ℤ, minus, ◌≡◌, refl, sym, ap, ◌∙◌, String, Bool, false, ◌&&◌, List, [], ◌∷◌, map, arith, ◌==◌,
  Comparable-ℕ, exists, keep, update_where, nat_eq, All,
}
use clawgard.Exec.{Result, ok}
use clawgard.Store.Db.{Db, ThreadRow, Error}
use clawgard.Store.Db.Calm.{statement-calm}
use clawgard.Store.History.{UniqueIds}
use clawgard.Store.Threads.{
  Thread, scan_thread, is_open, closes, closed_row, update_close, close, idle_before,
  list_idle_open,
}
use clawgard.Sweeper.{close_all, swept, run_once}

-- Which rows a list of closes meets, and what they do to the table.
abbrev named : List Thread → ThreadRow → Bool
named ths r = exists (λ (t : Thread). r.id == t.id) ths

abbrev closes_named : List Thread → ThreadRow → Bool
closes_named ths r = is_open r.status && named ths r

close-calm :
    (id : ℕ) (reason : String) (db : Db)
    → db.schedule ≡ []
    → close id reason db ≡ (
      ok tt,
      record db { threads = update_where (closes id) (closed_row db.now reason) db.threads },
    )
unfolding close update_close
close-calm id reason db e = statement-calm (update_close id reason) db e

abbrev sweep_row : ℕ → ThreadRow → ThreadRow
sweep_row now r = closed_row now "idle_timeout" r

-- Closing one thread and then the named ones closes the longer list.
close_twice :
    (now : ℕ) (t : Thread) (ths : List Thread) (rows : List ThreadRow)
    → update_where
        (closes_named ths)
        (sweep_row now)
        (update_where (closes t.id) (sweep_row now) rows)
      ≡ update_where (closes_named (t ∷ ths)) (sweep_row now) rows
close_twice now t ths [] = refl
close_twice now t ths (x ∷ xs) = ground (arith, close_twice now t ths xs)

update_none :
    (now : ℕ) (rows : List ThreadRow) → update_where (closes_named []) (sweep_row now) rows ≡ rows
update_none now [] = refl
update_none now (x ∷ xs) = ground (arith, update_none now xs)

close_all-calm :
    (ths : List Thread) (db : Db)
    → db.schedule ≡ []
    → close_all ths db
      ≡ record db { threads = update_where (closes_named ths) (sweep_row db.now) db.threads }
unfolding close_all
close_all-calm [] db e =
    ap (λ (l : List ThreadRow). record db { threads = l }) (sym (update_none db.now db.threads))
close_all-calm (t ∷ ths) db e =
    ap (λ (x : Result Error (Unit {0}) × Db). close_all ths x.1)
      (close-calm t.id "idle_timeout" db e)
    ∙ close_all-calm ths _ e
    ∙ ap (λ (l : List ThreadRow). record db { threads = l }) (close_twice db.now t ths db.threads)

-- The selected rows whose key is `k`.
abbrev selects : ℕ → ℕ → ThreadRow → Bool
selects cutoff k y = idle_before cutoff y && k == y.id

named-keep :
    (cutoff : ℕ) (rows : List ThreadRow) (r : ThreadRow)
    → named (map scan_thread (keep (idle_before cutoff) rows)) r ≡ exists (selects cutoff r.id) rows
named-keep cutoff [] r = refl
named-keep cutoff (x ∷ xs) r = ground (arith, named-keep cutoff xs r)

module _ (cutoff : ℕ) where
  not_selected :
      (k : ℕ) (rows : List ThreadRow)
      → exists (λ y. y.id == k) rows ≡ false
      → exists (selects cutoff k) rows ≡ false
  not_selected k [] h = refl
  not_selected k (x ∷ xs) h = ground (arith, not_selected k xs)

  other_keys :
      (k : ℕ) (rows : List ThreadRow)
      → exists (λ y. y.id == k) rows ≡ false
      → All (λ r. nat_eq r.id k ≡ false) rows
  other_keys k [] h = tt
  other_keys k (x ∷ xs) h = (ground arith, other_keys k xs (ground arith))

  abbrev Selected : List ThreadRow → ThreadRow → Type 0
  Selected rows r = exists (selects cutoff r.id) rows ≡ idle_before cutoff r

  later_rows :
      (x : ThreadRow) (xs rows : List ThreadRow)
      → All (λ r. nat_eq r.id x.id ≡ false) rows
      → All (Selected xs) rows
      → All (Selected (x ∷ xs)) rows
  later_rows x xs [] h k = tt
  later_rows x xs (r ∷ rs) h k = (ground arith, later_rows x xs rs h.1 k.1)

  -- Keys being unique, a row is named exactly when it is idle.
  each-Selected : (rows : List ThreadRow) → UniqueIds (λ r. r.id) rows → All (Selected rows) rows
  each-Selected [] u = tt
  each-Selected (x ∷ xs) u = (
    ground (arith, not_selected x.id xs),
    later_rows x xs xs (other_keys x.id xs u.0) (each-Selected xs u.1),
  )

  update-Selected :
      (now : ℕ) (all rows : List ThreadRow)
      → All (Selected all) rows
      → update_where
          (closes_named (map scan_thread (keep (idle_before cutoff) all)))
          (sweep_row now)
          rows
        ≡ update_where (idle_before cutoff) (sweep_row now) rows
  update-Selected now all [] h = refl
  update-Selected now all (x ∷ xs) h =
      ground (arith, named-keep cutoff all x, update-Selected now all xs h.1)

-- While statements run, and keys are unique, one round closes every open thread whose last activity
-- is older than the idle time, with the reason idle_timeout, and changes nothing else.
pub run_once_lem :
    (idle : ℤ) (db : Db)
    → db.schedule ≡ []
    → UniqueIds (λ r. r.id) db.threads
    → run_once idle db ≡ record db {
      threads =
          update_where
            (idle_before (minus db.now idle))
            (closed_row db.now "idle_timeout")
            db.threads;
    }
unfolding run_once list_idle_open
run_once_lem idle db e u =
    let cutoff = minus db.now idle in
    let idle_threads = map scan_thread (keep (idle_before cutoff) db.threads) in
    ap (λ (x : Result Error (List Thread) × Db). swept x.0 x.1)
      (statement-calm {A = List Thread}
        (λ d. (ok (map scan_thread (keep (idle_before cutoff) d.threads)), d)) db e)
    ∙ close_all-calm idle_threads db e
    ∙ ap (λ (l : List ThreadRow). record db { threads = l })
        (update-Selected cutoff db.now db.threads db.threads (each-Selected cutoff db.threads u))
