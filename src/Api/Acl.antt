-- ===== src/Api/Acl.antt =====
-- `aclAllows` of server/internal/api/hatchling.go.
pub mod Listing
use clawgard.Prelude.{
  String, Bool, true, false, Option, none, some, List, [], ◌∷◌, ◌==◌, Comparable-String,
  if◌then◌else◌,
}
use clawgard.Store.Buddies.{Acl, any_of, users_or_empty}
use clawgard.Api.Http.{Identity}

unfoldable pub acl_allows : Acl → Identity → Bool
acl_allows acl id =
    if acl.mode == "public"
    then true
    else if acl.mode == "users"
    then any_of id.email (users_or_empty acl.users)
    else if acl.mode == "group"
    then any_of acl.group_id id.groups
    else false
