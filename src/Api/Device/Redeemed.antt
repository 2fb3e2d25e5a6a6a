-- ===== src/Api/Device/Redeemed.antt =====
-- The redemption of a device code in server/internal/api/oidc_device.go.
use clawgard.Prelude.{
  ◌+◌, ◌*◌, ◌≤◌, ◌≡◌, ◌≢◌, refl, sym, subst, ap, ◌∙◌, String, Bool, not, none, some, List, [], ◌∷◌,
  arith, eq_iff, ◌==◌, Comparable-String, find?, keep,
}
use clawgard.Exec.{ok, err}
use clawgard.Store.Db.{Db, DeviceCode, no_rows, statement}
use clawgard.Store.Db.Calm.{statement-calm}
use clawgard.Api.Http.{Response, respond, internal, token}
use clawgard.Api.World.{World, serve, answer}
use clawgard.Api.World.Steps.{
  attempt-ok, attempt-err, or_refuse-some, guard-true, reads-step, skips,
}
use clawgard.Api.Hatchling.{bad_request, second}
use clawgard.Api.Device.{select_code, delete_code, unknown_code, drop_expired, handle_device_token}

abbrev named : String → DeviceCode → Bool
named code c = c.device_code == code

-- No row of the code is left.
find?-kept :
    (code : String) (codes : List DeviceCode)
    → find? (named code) (keep (λ c. not (c.device_code == code)) codes) ≡ none
find?-kept code [] = refl
find?-kept code (c ∷ cs) = ground (arith, find?-kept code cs)

abbrev redeemed : String → Db → Db
redeemed code db = record db { codes = keep (λ c. not (c.device_code == code)) db.codes }

select-found :
    (code : String) (c : DeviceCode) (db : Db)
    → db.schedule ≡ []
    → find? (named code) db.codes ≡ some c
    → statement (select_code code) db ≡ (ok c, db)
unfolding select_code
select-found code c db calm h = statement-calm (select_code code) db calm ∙ rw (h, select_code) refl

select-missing :
    (code : String) (db : Db)
    → db.schedule ≡ []
    → find? (named code) db.codes ≡ none
    → statement (select_code code) db ≡ (err no_rows, db)
unfolding select_code
select-missing code db calm h = statement-calm (select_code code) db calm ∙ rw (h, select_code) refl

delete-calm :
    (code : String) (db : Db)
    → db.schedule ≡ []
    → statement (delete_code code) db ≡ (ok tt, redeemed code db)
unfolding delete_code
delete-calm code db calm = statement-calm (delete_code code) db calm

unknown :
    (fresh code : String) (w : World)
    → w.db.schedule ≡ []
    → code ≢ ""
    → find? (named code) w.db.codes ≡ none
    → handle_device_token fresh (some code) w ≡ (err (unknown_code no_rows), w)
unfolding handle_device_token
unknown fresh code w calm ne missing =
    or_refuse-some _ w _ (bad_request "deviceCode required") code refl
    ∙ guard-true _ w _ _ (ground (arith, eq_iff code ""))
    ∙ attempt-err _ w _ unknown_code no_rows w.db (select-missing code w.db calm missing)

abbrev issued : String → String → World → Response
issued fresh email w = respond 200 (token fresh (w.db.now + 8 * 3600 * second) email)

redeems :
    (fresh code email : String) (c : DeviceCode) (w : World)
    → w.db.schedule ≡ []
    → code ≢ ""
    → find? (named code) w.db.codes ≡ some c
    → c.approved_email ≡ some email
    → w.db.now ≤ c.expires_at
    → handle_device_token fresh (some code) w
      ≡ (ok (issued fresh email w), record w { db = redeemed code w.db })
unfolding handle_device_token
redeems fresh code email c w calm ne found approved in_time =
    or_refuse-some _ w _ (bad_request "deviceCode required") code refl
    ∙ guard-true _ w _ _ (ground (arith, eq_iff code ""))
    ∙ attempt-ok _ w _ unknown_code c w.db (select-found code c w.db calm found)
    ∙ reads-step _ w _
    ∙ skips _ w _ (drop_expired code) (ground arith)
    ∙ or_refuse-some _ w _ _ email approved
    ∙ attempt-ok _ w _ internal tt (redeemed code w.db) (delete-calm code w.db calm)
    ∙ reads-step _ (record w { db = redeemed code w.db }) (λ (v : World). v.db.now)

-- A device code that was approved and has not expired is redeemed once, while statements run: the
-- first request is answered 200 with a fresh token, for 8 hours and the approved email, and the next
-- one 400, as for a code that never was.
pub handle_device_token-once :
    (fresh fresh' code email : String) (c : DeviceCode) (w : World)
    → w.db.schedule ≡ []
    → code ≢ ""
    → find? (λ x. x.device_code == code) w.db.codes ≡ some c
    → c.approved_email ≡ some email
    → w.db.now ≤ c.expires_at
    → let (r, w') = serve (handle_device_token fresh (some code)) w in
      (r ≡ respond 200 (token fresh (w.db.now + 8 * 3600 * second) email))
      × (serve (handle_device_token fresh' (some code)) w' ≡ (unknown_code no_rows, w'))
handle_device_token-once fresh fresh' code email c w calm ne found approved in_time =
    let first = ap answer (redeems fresh code email c w calm ne found approved in_time) in
    (
      ap (λ (x : Response × World). x.0) first,
      subst
          (λ (v : World).
            serve (handle_device_token fresh' (some code)) v ≡ (unknown_code no_rows, v))
          (sym (ap (λ (x : Response × World). x.1) first))
          (ap answer (
            unknown fresh' code (record w { db = redeemed code w.db }) calm ne
              (find?-kept code w.db.codes))),
    )
