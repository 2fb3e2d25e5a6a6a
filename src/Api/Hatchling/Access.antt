-- ===== src/Api/Hatchling/Access.antt =====
-- Who may do what with a thread, in server/internal/api/hatchling.go.
use clawgard.Prelude.{
  ℕ, ◌≡◌, ◌≢◌, refl, ap, ◌∙◌, String, false, Option, some, List, [], arith, eq_iff, ◌==◌,
  Comparable-String, find?,
}
use clawgard.Exec.{err}
use clawgard.Store.Db.{ThreadRow}
use clawgard.Store.Threads.{scan_thread, has_id}
use clawgard.Store.Threads.Turns.{get-found}
use clawgard.Api.Http.{Uuid, Identity, identity_or_zero}
use clawgard.Api.World.{World, serve, answer}
use clawgard.Api.World.Steps.{attempt-ok, or_refuse-some, guard-true, guard-false}
use clawgard.Api.Hatchling.{
  Event, bad_request, thread_missing, not_yours, hatchling_get_thread, hatchling_post_clarification,
  hatchling_close_thread,
}

module _ (u : Uuid) (ctx : Option Identity) (param : String) (id : ℕ) (row : ThreadRow) (w : World)
    (calm : w.db.schedule ≡ []) (parsed : u.parse param ≡ some id)
    (found : find? (has_id id) w.db.threads ≡ some row) where
  abbrev caller : Identity
  caller = identity_or_zero ctx

  module _ (other : row.hatchling_email ≢ caller.email) where
    not_same : (row.hatchling_email == caller.email) ≡ false
    not_same = ground (arith, eq_iff row.hatchling_email caller.email)

    get_refused :
        (wait since : Option ℕ) (events : List Event)
        → caller.admin ≡ false
        → hatchling_get_thread u ctx param wait since events w ≡ (err not_yours, w)
    unfolding hatchling_get_thread
    get_refused wait since events user =
        or_refuse-some _ w _ _ id parsed
        ∙ attempt-ok _ w _ thread_missing (scan_thread row) w.db (get-found id row w.db calm found)
        ∙ guard-false _ w _ not_yours (rw (not_same, user))

    close_refused : caller.admin ≡ false → hatchling_close_thread u ctx param w ≡ (err not_yours, w)
    unfolding hatchling_close_thread
    close_refused user =
        or_refuse-some _ w _ _ id parsed
        ∙ attempt-ok _ w _ thread_missing (scan_thread row) w.db (get-found id row w.db calm found)
        ∙ guard-false _ w _ not_yours (rw (not_same, user))

    post_refused :
        (content : String)
        → content ≢ ""
        → hatchling_post_clarification u ctx param (some content) w ≡ (err not_yours, w)
    unfolding hatchling_post_clarification
    post_refused content ne =
        or_refuse-some _ w _ _ id parsed
        ∙ or_refuse-some _ w _ (bad_request "content required") content refl
        ∙ guard-true _ w _ _ (ground (arith, eq_iff content ""))
        ∙ attempt-ok _ w _ thread_missing (scan_thread row) w.db (get-found id row w.db calm found)
        ∙ guard-false _ w _ not_yours not_same

-- A caller who did not ask a thread's question, and is no admin, is refused with 403 on reading,
-- closing and clarifying it (with a text that is not empty), and nothing changes, while statements
-- run and the thread is there.
pub stranger_refused :
    (u : Uuid) (ctx : Option Identity) (param : String) (id : ℕ) (row : ThreadRow) (w : World)
    (wait since : Option ℕ) (events : List Event) (content : String)
    → w.db.schedule ≡ []
    → u.parse param ≡ some id
    → find? (has_id id) w.db.threads ≡ some row
    → row.hatchling_email ≢ (identity_or_zero ctx).email
    → (identity_or_zero ctx).admin ≡ false
    → content ≢ ""
    → (serve (hatchling_get_thread u ctx param wait since events) w ≡ (not_yours, w))
      × (serve (hatchling_close_thread u ctx param) w ≡ (not_yours, w))
      × (serve (hatchling_post_clarification u ctx param (some content)) w ≡ (not_yours, w))
stranger_refused u ctx param id row w wait since events content calm parsed found other user ne = (
  ap answer (get_refused u ctx param id row w calm parsed found other wait since events user),
  ap answer (close_refused u ctx param id row w calm parsed found other user),
  ap answer (post_refused u ctx param id row w calm parsed found other content ne),
)
