-- ===== src/Api/Me.antt =====
-- server/internal/api/me.go, with `HasBuddiesOwnedBy` of server/internal/server/server.go.
pub mod Roles
use clawgard.Prelude.{
  ℕ, String, Bool, true, false, Option, none, some, List, [], ◌∷◌, ◌==◌, Comparable-String,
  if◌then◌else◌, exists,
}
use clawgard.Exec.{Result, ok, err}
use clawgard.Store.Db.{Db, Error}
use clawgard.Store.Buddies.{Buddy, list_all, any_of}
use clawgard.Api.Session.{SessionError}

-- `seen` is the map of the texts that were put out.
unfoldable pub dedupe_from : List String → List String → List String
dedupe_from seen [] = []
dedupe_from seen (s ∷ ss) =
    let fresh = s ∷ dedupe_from (s ∷ seen) ss in
    let old = dedupe_from seen ss in if any_of s seen then old else fresh

unfoldable pub dedupe : List String → List String
unfolding dedupe_from
dedupe ss = dedupe_from [] ss

abbrev pub owned : String → Result Error (List Buddy) → Result Error Bool
owned email (err e) = err e
owned email (ok bs) = ok (exists (λ b. b.owner_email == email) bs)

unfoldable pub has_buddies_owned_by : String → Db → Result Error Bool × Db
has_buddies_owned_by email db = let (r, db') = list_all db in (owned email r, db')

pub data MeResponse : Type 0 where
  -- http.Error with this status
  refuses : ℕ → MeResponse
  roles_of : String → List String → MeResponse

abbrev pub base_roles : String → List String → List String
base_roles email admins =
    if any_of email admins then "admin" ∷ "hatchling" ∷ [] else "hatchling" ∷ []

abbrev pub with_owner : String → List String → Result Error Bool → MeResponse
with_owner email roles (err e) = refuses 500
with_owner email roles (ok true) = roles_of email (dedupe ("buddy_owner" ∷ roles))
with_owner email roles (ok false) = roles_of email (dedupe roles)

-- `ServeHTTP` with a buddy store, as the server makes it.
unfoldable pub serve_me : List String → Result SessionError String → Db → MeResponse × Db
unfolding dedupe has_buddies_owned_by
serve_me admins (err e) db = (refuses 401, db)
serve_me admins (ok email) db =
    let (r, db') = has_buddies_owned_by email db in
    (with_owner email (base_roles email admins) r, db')
