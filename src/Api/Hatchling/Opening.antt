-- ===== src/Api/Hatchling/Opening.antt =====
-- Asking a question: what `hatchlingOpenThread` of server/internal/api/hatchling.go does and refuses.
use clawgard.Prelude.{
  ℕ, ◌+◌, ◌≡◌, ◌≢◌, refl, ap, ◌∙◌, inl, inr, String, true, false, Option, none, some, List, [], ◌∷◌,
  arith, eq_iff, ◌==◌, Comparable-ℕ, Comparable-String, if◌then◌else◌, exists, find?, Bool-cases,
  nat_eq_iff, subst,
}
use clawgard.Exec.{ok, err, reads, guard, ◌>>=◌, ◌>>◌}
use clawgard.Assoc.{lookup}
use clawgard.Store.Db.{Db, BuddyRow}
use clawgard.Store.Buddies.{is_live, get_by_id, select_buddy, scan_buddy, scan_row}
use clawgard.Store.Db.Calm.{statement-calm}
use clawgard.Api.Acl.{acl_allows}
use clawgard.Store.History.{UniqueIds}
use clawgard.Store.Threads.{scan_thread, has_id}
use clawgard.Store.Messages.Calm.{next_id}
use clawgard.Router.Registry.{online, BuddyEntry, ensure_waiter}
use clawgard.Api.Http.{
  Uuid, Identity, identity_or_zero, Response, write_error, says, respond, thread, to_thread_resp,
}
use clawgard.Api.World.{World, Handler, answer, serve, write_frame}
use clawgard.Api.World.Steps.{attempt-ok, or_refuse-some, reads-step, guard-true, guard-false}
use clawgard.Api.Hatchling.{
  ask, OpenThreadReq, hatchling_open_thread, bad_request, buddy_error, buddy_offline,
}
use clawgard.Api.Hatchling.Asked.{first_row, asked_db, asked_frame, asks}

live-known :
    (buddy : ℕ) (rows : List BuddyRow) (row : BuddyRow)
    → find? (is_live buddy) rows ≡ some row
    → exists (λ b. b.id == row.id) rows ≡ true
live-known buddy [] row h = cc
live-known buddy (x ∷ xs) row h = elim (Bool-cases (is_live buddy x)) [
  | inl hit ↦
      let same : x ≡ row = ground arith in
      subst (λ (y : BuddyRow). exists (λ b. b.id == y.id) (x ∷ xs) ≡ true) same
        (ground (arith, nat_eq_iff x.id x.id))
  | inr miss ↦ ground (arith, live-known buddy xs row)
]

get_by_id-found :
    (buddy : ℕ) (row : BuddyRow) (db : Db)
    → db.schedule ≡ []
    → find? (is_live buddy) db.buddies ≡ some row
    → get_by_id buddy db ≡ (ok (scan_buddy row), db)
unfolding get_by_id select_buddy
get_by_id-found buddy row db calm h =
    ap scan_row (statement-calm (select_buddy (is_live buddy)) db calm) ∙ rw (h, select_buddy) refl

abbrev pub forbidden : Response
forbidden = write_error 403 "forbidden" (says "not allowed to ask this buddy")

-- What is answered and what has changed, by the buddy's connection.
abbrev pub asked_or_offline :
    Uuid → Identity → ℕ → String → Option BuddyEntry → World → Response × World
asked_or_offline u id buddy question none w = (buddy_offline "buddy is not currently online", w)
asked_or_offline u id buddy question (some entry) w = (
  respond 201 (thread (to_thread_resp u (scan_thread (first_row u id buddy question w)) [])),
  write_frame entry.writer (asked_frame u id buddy question w) (record w {
    db = asked_db u id buddy question w;
    reg = (ensure_waiter (u.print (next_id w.db)) w.reg).1;
  }),
)

module _ (u : Uuid) (ctx : Option Identity) (req : OpenThreadReq) (buddy : ℕ) (row : BuddyRow)
    (w : World) (calm : w.db.schedule ≡ []) (parsed : u.parse req.buddy_id ≡ some buddy)
    (ne : req.question ≢ "") (found : find? (is_live buddy) w.db.buddies ≡ some row) where
  abbrev caller : Identity
  caller = identity_or_zero ctx

  abbrev checked : Handler Response
  checked = do
    guard (acl_allows (scan_buddy row).acl caller) forbidden
    on ← reads (λ (v : World). online row.id v.reg)
    guard on (buddy_offline "buddy is not currently online")
    ask u caller row.id req.question

  reaches_acl : hatchling_open_thread u ctx (some req) w ≡ checked w
  unfolding hatchling_open_thread
  reaches_acl =
      or_refuse-some _ w (some req) (bad_request "malformed json") req refl
      ∙ or_refuse-some _ w _ (bad_request "bad buddyId") buddy parsed
      ∙ guard-true _ w _ _ (ground (arith, eq_iff req.question ""))
      ∙ attempt-ok _ w _ buddy_error (scan_buddy row) w.db
          (get_by_id-found buddy row w.db calm found)

  not_admitted :
      acl_allows (scan_buddy row).acl caller ≡ false
      → hatchling_open_thread u ctx (some req) w ≡ (err forbidden, w)
  not_admitted h = reaches_acl ∙ guard-false _ w _ forbidden h

  admitted_offline :
      acl_allows (scan_buddy row).acl caller ≡ true
      → lookup row.id w.reg.buddies ≡ none
      → hatchling_open_thread u ctx (some req) w
        ≡ (err (buddy_offline "buddy is not currently online"), w)
  unfolding online
  admitted_offline h off =
      reaches_acl
      ∙ guard-true _ w _ forbidden h
      ∙ reads-step _ w _
      ∙ guard-false _ w _ _ (rw (online, off) refl)

  admitted_online :
      (entry : BuddyEntry)
      → acl_allows (scan_buddy row).acl caller ≡ true
      → lookup row.id w.reg.buddies ≡ some entry
      → hatchling_open_thread u ctx (some req) w ≡ ask u caller row.id req.question w
  unfolding online
  admitted_online entry h on =
      reaches_acl
      ∙ guard-true _ w _ forbidden h
      ∙ reads-step _ w _
      ∙ guard-true _ w _ _ (rw (online, on) refl)

-- A question that is not empty, to a live buddy, while statements run and the drawn keys are new: a caller whom the
-- buddy's ACL does not admit is answered 403, one whose buddy is not connected 503, both with nothing
-- changed; otherwise the answer is 201, a thread with one turn used and the question are stored, and
-- the question's frame is offered to the buddy's connection, with a waiter for the thread in place.
pub hatchling_open_thread_lem :
    (u : Uuid) (ctx : Option Identity) (req : OpenThreadReq) (buddy : ℕ) (row : BuddyRow)
    (w : World)
    → w.db.schedule ≡ []
    → UniqueIds (λ r. r.id) w.db.threads
    → exists (has_id (next_id w.db)) w.db.threads ≡ false
    → exists (λ m. m.id == w.db.uuids (w.db.drawn + 1)) w.db.messages ≡ false
    → u.parse req.buddy_id ≡ some buddy
    → req.question ≢ ""
    → find? (is_live buddy) w.db.buddies ≡ some row
    → serve (hatchling_open_thread u ctx (some req)) w ≡ (
        if acl_allows (scan_buddy row).acl (identity_or_zero ctx)
        then asked_or_offline u
            (identity_or_zero ctx)
            row.id
            req.question
            (lookup row.id w.reg.buddies)
            w
        else (forbidden, w))
hatchling_open_thread_lem u ctx req buddy row w calm unique fresh_thread fresh_message parsed ne
      found =
    elim (Bool-cases (acl_allows (scan_buddy row).acl (identity_or_zero ctx))) [
      | inl admitted ↦ rw admitted (by_entry (lookup row.id w.reg.buddies) admitted refl)
      | inr stranger ↦
          rw stranger (ap answer (not_admitted u ctx req buddy row w calm parsed ne found stranger))
    ]
  where
    by_entry :
        (o : Option BuddyEntry)
        → acl_allows (scan_buddy row).acl (identity_or_zero ctx) ≡ true
        → lookup row.id w.reg.buddies ≡ o
        → serve (hatchling_open_thread u ctx (some req)) w
          ≡ asked_or_offline u (identity_or_zero ctx) row.id req.question o w
    by_entry none admitted off =
        ap answer (admitted_offline u ctx req buddy row w calm parsed ne found admitted off)
    by_entry (some entry) admitted on = ap answer (
        admitted_online u ctx req buddy row w calm parsed ne found entry admitted on
        ∙ asks u (identity_or_zero ctx) row.id req.question w calm unique fresh_thread fresh_message
            (live-known buddy w.db.buddies row found) entry on)
