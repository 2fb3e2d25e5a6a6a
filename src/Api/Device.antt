-- ===== src/Api/Device.antt =====
-- server/internal/api/oidc_device.go. The random codes and tokens are arguments.
pub mod Redeemed
use clawgard.Prelude.{
  ℕ, ◌+◌, ◌*◌, ◌%◌, String, not, ◌||◌, Option, none, some, List, [], ◌∷◌, ◌++◌, ltb, ◌==◌,
  Comparable-ℕ, Comparable-String, if◌then◌else◌, find?, exists, keep, get_elem?, codes, same_bytes,
}
use clawgard.Exec.{ok, err, pure, leave, reads, guard, ◌>>=◌, ◌>>◌}
use clawgard.Store.Db.{DeviceCode, Error, constraint, no_rows, Sql, statement}
use clawgard.Api.Http.{Response, respond, write_error, internal, says, device, token}
use clawgard.Api.World.{World, Handler, query, attempt, or_refuse}
use clawgard.Api.Hatchling.{bad_request, second}

abbrev pub alphabet : List ℕ
alphabet = codes "ABCDEFGHJKLMNPQRSTUVWXYZ23456789"

abbrev pub letter : ℕ → ℕ
letter b = elim (get_elem? alphabet (b % 32)) [ none ↦ 0 | some c ↦ c ]

-- `randomUserCode` from the two buffers of four random bytes.
unfoldable pub random_user_code : (a b c d : ℕ) (e f g h : ℕ) → List ℕ
random_user_code a b c d e f g h =
    letter a
    ∷ letter b
    ∷ letter c
    ∷ letter d
    ∷ b'-'
    ∷ letter e
    ∷ letter f
    ∷ letter g
    ∷ letter h
    ∷ []

abbrev pub expires_in : ℕ
expires_in = 600

abbrev pub interval : ℕ
interval = 5

abbrev pub new_code : String → List ℕ → ℕ → DeviceCode
new_code code user now = record {
  device_code = code;
  user_code = user;
  expires_at = now + expires_in * second;
  interval_seconds = interval;
  approved_email = none;
}

-- INSERT INTO device_codes: both codes are new.
unfoldable pub insert_code : String → List ℕ → Sql (Unit {0})
insert_code code user db =
    if exists (λ c. c.device_code == code || same_bytes c.user_code user) db.codes
    then (err constraint, db)
    else (ok tt, record db { codes = db.codes ++ new_code code user db.now ∷ [] })

unfoldable pub handle_device_initiate : String → String → List ℕ → Handler Response
handle_device_initiate uri code user = do
  attempt (statement (insert_code code user)) internal
  pure (respond 200 (device code user uri interval expires_in))

unfoldable pub select_code : String → Sql DeviceCode
select_code code db = elim (find? (λ c. c.device_code == code) db.codes) [
  | none ↦ (err no_rows, db)
  | some c ↦ (ok c, db)
]

unfoldable pub delete_code : String → Sql (Unit {0})
delete_code code db =
    (ok tt, record db { codes = keep (λ c. not (c.device_code == code)) db.codes })

-- Any error, of the driver too, is an unknown code.
abbrev pub unknown_code : Error → Response
unknown_code e = write_error 400 "unknown_device_code" (says "unknown device code")

unfoldable pub drop_expired : String → Handler (Unit {0})
drop_expired code = do
  query (statement (delete_code code))
  leave (write_error 400 "expired_token" (says "device code expired"))

unfoldable pub handle_device_token : String → Option String → Handler Response
unfolding drop_expired
handle_device_token fresh body = do
  code ← or_refuse body (bad_request "deviceCode required")
  guard (not (code == "")) (bad_request "deviceCode required")
  found ← attempt (statement (select_code code)) unknown_code
  now ← reads (λ (w : World). w.db.now)
  if ltb found.expires_at now then drop_expired code else pure tt
  email ←
      or_refuse found.approved_email
        (write_error 400 "authorization_pending" (says "approval still pending"))
  attempt (statement (delete_code code)) internal
  issued ← reads (λ (w : World). w.db.now)
  pure (respond 200 (token fresh (issued + 8 * 3600 * second) email))
