-- ===== src/Api/Safety/Admins.antt =====
-- The handlers of server/internal/api/admin.go, as steps of the world.
use clawgard.Prelude.{String, Option, Comparable-ℕ}
use clawgard.Api.Http.{Uuid, Identity, Response}
use clawgard.Api.World.{Handler}
use clawgard.Api.Safety.{IsSafe, safe_rules}
use clawgard.Store.Filter.{ListFilter, list_with_filter, count_with_filter}
use clawgard.Store.Buddies.{UpdateBuddy}
use clawgard.Api.Safety.Handlers.{store_rules}
use clawgard.Api.Admin.{
  Keygen, CreateBuddyRequest, require_admin, admin_create_buddy, admin_list_buddies,
  admin_update_buddy, admin_rotate_buddy_key, admin_delete_buddy, admin_get_thread,
  admin_list_threads,
}
use clawgard.Store.History.Statements.{Sound, statement-Sound, read-Sound}
use clawgard.Store.History.Accounts.{
  create-Sound, update-Sound, delete-Sound, update_api_key_hash-Sound,
}

list_with_filter-Sound : (f : ListFilter) → Sound (list_with_filter f)
unfolding list_with_filter
list_with_filter-Sound f = statement-Sound _ (read-Sound _)

count_with_filter-Sound : (f : ListFilter) → Sound (count_with_filter f)
unfolding count_with_filter
count_with_filter-Sound f = statement-Sound _ (read-Sound _)

ruleset admin_rules = (
  safe_rules, store_rules, list_with_filter-Sound, count_with_filter-Sound, create-Sound,
  update-Sound, delete-Sound, update_api_key_hash-Sound,
)

pub require_admin-IsSafe :
    (ctx : Option Identity) (next : Handler Response)
    → IsSafe next
    → IsSafe (require_admin ctx next)
unfolding require_admin
require_admin-IsSafe ctx next h = search (safe_rules) depth 10

module _ (u : Uuid) where
  pub admin_create_buddy-IsSafe :
      (k : Keygen) (ctx : Option Identity) (body : Option CreateBuddyRequest)
      → IsSafe (admin_create_buddy u k ctx body)
  unfolding admin_create_buddy
  admin_create_buddy-IsSafe k ctx body = search admin_rules depth 20

  pub admin_list_buddies-IsSafe : IsSafe (admin_list_buddies u)
  unfolding admin_list_buddies
  admin_list_buddies-IsSafe = search admin_rules depth 10

  pub admin_update_buddy-IsSafe :
      (param : String) (body : Option UpdateBuddy) → IsSafe (admin_update_buddy u param body)
  unfolding admin_update_buddy
  admin_update_buddy-IsSafe param body = search admin_rules depth 10

  pub admin_rotate_buddy_key-IsSafe :
      (k : Keygen) (param : String) → IsSafe (admin_rotate_buddy_key u k param)
  unfolding admin_rotate_buddy_key
  admin_rotate_buddy_key-IsSafe k param = search admin_rules depth 15

  pub admin_delete_buddy-IsSafe : (param : String) → IsSafe (admin_delete_buddy u param)
  unfolding admin_delete_buddy
  admin_delete_buddy-IsSafe param = search admin_rules depth 10

  pub admin_get_thread-IsSafe : (param : String) → IsSafe (admin_get_thread u param)
  unfolding admin_get_thread
  admin_get_thread-IsSafe param = search admin_rules depth 10

  pub admin_list_threads-IsSafe : (f : ListFilter) → IsSafe (admin_list_threads u f)
  unfolding admin_list_threads
  admin_list_threads-IsSafe f = search admin_rules depth 10
