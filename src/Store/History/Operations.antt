-- ===== src/Store/History/Operations.antt =====
-- The functions of server/internal/store/{threads,messages}.go, built from their statements.
use clawgard.Prelude.{ℕ, ◌≡◌, refl, String}
use clawgard.Exec.{Result, ok, err}
use clawgard.Exec.Respects.{
  Respects-atom, Respects-at, Respects-pure, Respects-leave, Respects-bind, Respects-then,
}
use clawgard.Store.Db.{Db, ThreadRow, Error}
use clawgard.Store.Threads.{
  open_thread, get, or_not_found, close, explain, or_explain, increment_turns, touch_activity,
  list_idle_open, scan_thread,
}
use clawgard.Store.Messages.{NewMessage, append, ignore_error, list, list_since}
use clawgard.Store.History.{Evolves, Evolves-order}
use clawgard.Store.History.Statements.{
  Sound, statement-Sound, read-Sound, new_uuid-Sound, update_close-Sound, update_turns-Sound,
  update_activity-Sound,
}
use clawgard.Store.History.Inserts.{insert_thread-Sound, select_thread-Sound, insert_message-Sound}

pub open_thread-Sound : (buddy : ℕ) (email : String) → Sound (open_thread buddy email)
unfolding open_thread
open_thread-Sound buddy email = Respects-bind Evolves _ _ new_uuid-Sound λ id.
    Respects-bind Evolves _ _ (statement-Sound _ (insert_thread-Sound id buddy email))
      λ row. Respects-pure Evolves (scan_thread row)

or_not_found-state : (x : Result Error ThreadRow × Db) → (or_not_found x).1 ≡ x.1
or_not_found-state (ok row, db) = refl
or_not_found-state (err e, db) = refl

pub get-Sound : (id : ℕ) → Sound (get id)
unfolding get
get-Sound id = Respects-atom _ (λ db.
    rw or_not_found-state
      (Respects-at Evolves-order (statement-Sound _ (select_thread-Sound id)) db))

pub close-Sound : (id : ℕ) (reason : String) → Sound (close id reason)
unfolding close
close-Sound id reason = statement-Sound _ (update_close-Sound id reason)

explain-Sound : (id : ℕ) → Sound (explain id)
unfolding explain
explain-Sound id = Respects-bind Evolves _ _ (get-Sound id) λ t. Respects-leave Evolves _

or_explain-Sound : (id : ℕ) (r : Result Error ℕ) → Sound (λ db. or_explain id (r, db))
or_explain-Sound id (ok n) = Respects-pure Evolves n
or_explain-Sound id (err e) = explain-Sound id

-- The UPDATE is one step and the read that explains its failure another.
pub increment_turns-Sound : (id : ℕ) → Sound (increment_turns id)
unfolding increment_turns
increment_turns-Sound id =
    Respects-then _ (λ r db. or_explain id (r, db)) (statement-Sound _ (update_turns-Sound id))
      (or_explain-Sound id)

pub touch_activity-Sound : (id : ℕ) → Sound (touch_activity id)
unfolding touch_activity
touch_activity-Sound id = statement-Sound _ (update_activity-Sound id)

pub list_idle_open-Sound : (cutoff : ℕ) → Sound (list_idle_open cutoff)
unfolding list_idle_open
list_idle_open-Sound cutoff = statement-Sound _ (read-Sound _)

ignore_error-state {ℓ} : {A : Type ℓ} (x : Result Error (Unit {0}) × A) → (ignore_error x).1 ≡ x.1
ignore_error-state (r, s) = refl

pub append-Sound : (m : NewMessage) → Sound (append m)
unfolding append
append-Sound m = Respects-bind Evolves _ _ new_uuid-Sound λ id.
    Respects-bind Evolves _ _ (statement-Sound _ (insert_message-Sound id m))
      λ msg. Respects-bind Evolves _ _ touched λ _. Respects-pure Evolves msg
  where
    touched : Sound (λ db. ignore_error (touch_activity m.thread_id db))
    touched =
        Respects-atom _ (λ db. Respects-at Evolves-order (touch_activity-Sound m.thread_id) db)

pub list-Sound : (id : ℕ) → Sound (list id)
unfolding list
list-Sound id = statement-Sound _ (read-Sound _)

pub list_since-Sound : (id since : ℕ) → Sound (list_since id since)
unfolding list_since
list_since-Sound id since = statement-Sound _ (read-Sound _)
