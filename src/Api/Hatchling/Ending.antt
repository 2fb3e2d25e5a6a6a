-- ===== src/Api/Hatchling/Ending.antt =====
-- Closing a thread: `hatchlingCloseThread` of server/internal/api/hatchling.go.
use clawgard.Prelude.{
  ℕ, ◌≡◌, refl, sym, subst, ap, ◌∙◌, String, true, false, ◌||◌, ◌&&◌, Option, none, some, List, [],
  ◌∷◌, ◌++◌, ltb, length, arith, eq_iff, if◌then◌else◌, ◌==◌, Comparable-ℕ, Comparable-String,
  find?, update_where,
}
use clawgard.Exec.{ok, pure, ◌>>=◌, ◌>>◌}
use clawgard.Assoc.{Assoc, lookup, put, lookup-put, lookup-delete}
use clawgard.Store.Db.{Db, ThreadRow, closed_status}
use clawgard.Store.Threads.{is_open, scan_thread, has_id, close}
use clawgard.Store.Threads.Closing.{close-calm}
use clawgard.Store.Threads.Turns.{get-found}
use clawgard.Router.Registry.{
  InFrame, Registry, BuddyEntry, make_waiter, ensure_waiter, send_question, clear_waiter,
}
use clawgard.Api.Http.{Uuid, Response, Identity, identity_or_zero, respond, empty}
use clawgard.Api.World.{wire_at, World, serve, answer, write_frame}
use clawgard.Api.World.Steps.{
  attempt-ok, query-step, or_refuse-some, guard-true, send-online, send-offline,
}
use clawgard.Api.Hatchling.{
  thread_missing, not_yours, clear, close_frame, end_thread, hatchling_close_thread,
}

-- The world after the close of a thread, by its buddy's connection.
abbrev told : Uuid → ℕ → Option BuddyEntry → World → World
told u id none w = w
told u id (some entry) w =
    write_frame entry.writer (close_frame u id)
      (record w { reg = (ensure_waiter (u.print id) w.reg).1 })

abbrev cleared : Uuid → ℕ → World → World
cleared u id w = record w { reg = clear_waiter (u.print id) w.reg }

-- The frame that tells the buddy of the end.
abbrev pub closing : Uuid → ℕ → InFrame
closing u id = record { type = "close"; thread_id = u.print id; content = ""; asker_email = "" }

-- The channels of the connections after a frame for a connection, if there is one: it is added while
-- fewer than 16 are there.
abbrev pub wires_after : InFrame → Option BuddyEntry → World → Assoc ℕ (List InFrame)
wires_after f none w = w.wires
wires_after f (some entry) w =
    let held = wire_at entry.writer w in
    if ltb (length held) 16 then put entry.writer (held ++ f ∷ []) w.wires else w.wires

module _ (thread : String) (r : Registry) where
  lookup-clear_waiter :
      (other : String)
      → lookup other (clear_waiter thread r).waiters
        ≡ (if thread == other then none else lookup other r.waiters)
  unfolding clear_waiter
  lookup-clear_waiter other = lookup-delete thread other r.waiters

  clear_waiter_self : lookup thread (clear_waiter thread r).waiters ≡ none
  clear_waiter_self = ground (arith, lookup-clear_waiter thread, eq_iff thread thread)

  lookup-ensure_waiter :
      (other : String)
      → (thread == other) ≡ false
      → lookup other (ensure_waiter thread r).1.waiters ≡ lookup other r.waiters
  unfolding ensure_waiter make_waiter
  lookup-ensure_waiter other h =
      ground (arith, lookup-put thread other (length r.channels) r.waiters)

  buddies-clear_waiter : (clear_waiter thread r).buddies ≡ r.buddies
  unfolding clear_waiter
  buddies-clear_waiter = refl

  buddies-ensure_waiter : (ensure_waiter thread r).1.buddies ≡ r.buddies
  unfolding ensure_waiter make_waiter
  buddies-ensure_waiter = ground arith

write_frame_lem :
    (conn : ℕ) (f : InFrame) (w : World)
    → write_frame conn f w ≡ record w {
      wires =
          if ltb (length (wire_at conn w)) 16
          then put conn (wire_at conn w ++ f ∷ []) w.wires
          else w.wires;
    }
unfolding write_frame
write_frame_lem conn f w = ground arith

module _ (u : Uuid) (ctx : Option Identity) (param : String) (id : ℕ) (row : ThreadRow) (w : World)
    (calm : w.db.schedule ≡ []) (parsed : u.parse param ≡ some id)
    (found : find? (has_id id) w.db.threads ≡ some row) where
  abbrev caller : Identity
  caller = identity_or_zero ctx

  -- The tables with the thread closed.
  abbrev pub closed_db : Db
  closed_db = record w.db {
    threads =
        update_where (λ r. r.id == id && is_open r.status)
          (λ r. record r {
            status = closed_status;
            closed_at = some w.db.now;
            close_reason = some "hatchling_closed";
            last_activity_at = w.db.now;
          })
          w.db.threads;
  }

  clears :
      (v : World)
      → (clear u id >> pure (respond 204 empty)) v ≡ (ok (respond 204 empty), cleared u id v)
  unfolding ◌>>=◌
  clears v = refl

  by_connection :
      (o : Option BuddyEntry)
      → lookup row.buddy_id w.reg.buddies ≡ o
      → end_thread u (scan_thread row) id w
        ≡ (ok (respond 204 empty), cleared u id (told u id o (record w { db = closed_db })))
  unfolding end_thread send_question
  by_connection none off =
      query-step _ w (close id "hatchling_closed") _ _ (close-calm id "hatchling_closed" w.db calm)
      ∙ send-offline _ (record w { db = closed_db }) row.buddy_id (close_frame u id) w.reg
          (rw (send_question, off) refl)
      ∙ clears (record w { db = closed_db })
  by_connection (some entry) on =
      query-step _ w (close id "hatchling_closed") _ _ (close-calm id "hatchling_closed" w.db calm)
      ∙ send-online _ (record w { db = closed_db }) row.buddy_id (close_frame u id) entry.writer
          (ensure_waiter (u.print id) w.reg).1 (rw (send_question, on) refl)
      ∙ clears (
          write_frame entry.writer (close_frame u id)
            (record w { db = closed_db; reg = (ensure_waiter (u.print id) w.reg).1 }))

  ends :
      (row.hatchling_email == caller.email || caller.admin) ≡ true
      → serve (hatchling_close_thread u ctx param) w ≡ (
        respond 204 empty,
        cleared u id (told u id (lookup row.buddy_id w.reg.buddies) (record w { db = closed_db })),
      )
  unfolding hatchling_close_thread
  ends allowed = ap answer (
      or_refuse-some _ w _ _ id parsed
      ∙ attempt-ok _ w _ thread_missing (scan_thread row) w.db (get-found id row w.db calm found)
      ∙ guard-true _ w _ not_yours allowed
      ∙ by_connection (lookup row.buddy_id w.reg.buddies) refl)

  -- The answer and what is left, by the buddy's connection and for any thread's text.
  abbrev pub Ended : String → Option BuddyEntry → Response × World → Type 0
  Ended other o x =
      (x.0 ≡ respond 204 empty)
      × (x.1.db ≡ closed_db)
      × (x.1.wires ≡ wires_after (closing u id) o w)
      × (lookup (u.print id) x.1.reg.waiters ≡ none)
      × (lookup other x.1.reg.waiters
          ≡ (if u.print id == other then none else lookup other w.reg.waiters))
      × (x.1.reg.buddies ≡ w.reg.buddies)

  cleared-Ended :
      (other : String) (o : Option BuddyEntry)
      → Ended other o (respond 204 empty, cleared u id (told u id o (record w { db = closed_db })))
  cleared-Ended other none = (
    refl,
    refl,
    refl,
    clear_waiter_self (u.print id) w.reg,
    lookup-clear_waiter (u.print id) w.reg other,
    buddies-clear_waiter (u.print id) w.reg,
  )
  cleared-Ended other (some entry) =
      let reg = (ensure_waiter (u.print id) w.reg).1 in
      rw (write_frame_lem entry.writer (closing u id) (record w { db = closed_db; reg = reg })) (
        refl,
        refl,
        refl,
        clear_waiter_self (u.print id) reg,
        ground (
          arith,
          lookup-clear_waiter (u.print id) reg other,
          lookup-ensure_waiter (u.print id) w.reg other,
        ),
        buddies-clear_waiter (u.print id) reg ∙ buddies-ensure_waiter (u.print id) w.reg,
      )

  -- The asker of a thread, or an admin, closes it while statements run: the answer is 204, the thread
  -- is closed at that time, if it was open, with the reason hatchling_closed, and nothing else in the
  -- tables changes; a frame of type close with the thread's id is added to the channel of its buddy's
  -- connection, if there is one and it has room; and no waiter for the thread is left, while those
  -- for other threads and the connections stay.
  pub hatchling_close_thread_lem :
      (other : String)
      → (row.hatchling_email == caller.email || caller.admin) ≡ true
      → Ended other
          (lookup row.buddy_id w.reg.buddies)
          (serve (hatchling_close_thread u ctx param) w)
  hatchling_close_thread_lem other allowed =
      subst (Ended other (lookup row.buddy_id w.reg.buddies)) (sym (ends allowed))
        (cleared-Ended other (lookup row.buddy_id w.reg.buddies))
