-- ===== src/Api/Admin.antt =====
-- server/internal/api/admin.go. Keys come from auth.GenerateAPIKey and auth.HashAPIKey
-- (server/internal/auth/apikey.go), whose randomness and bcrypt are arguments.
pub mod Pages
use Prim.Native.String.{◌++◌ as ◌<>◌}
use clawgard.Prelude.{
  of_bits, ℕ, suc, ◌+◌, ◌-◌, ◌*◌, String, Bool, true, false, not, ◌&&◌, Option, none, some, List,
  [], ◌∷◌, ◌++◌, map, ltb, leb, ◌==◌, Comparable-ℕ, Comparable-String, if◌then◌else◌,
}
use clawgard.Exec.{Result, ok, err, Exec, pure, leave, guard, ◌>>=◌, ◌>>◌}
use clawgard.Store.Db.{Db, Error, buddy_not_found, Sql}
use clawgard.Store.Threads
use clawgard.Store.Threads.{Thread}
use clawgard.Store.Buddies.{
  Acl, Buddy, NewBuddy, UpdateBuddy, create, update, delete, update_api_key_hash, list_all,
}
use clawgard.Store.Messages.{list}
use clawgard.Store.Filter.{ListFilter, list_with_filter, count_with_filter}
use clawgard.Api.Http.{
  Uuid, Identity, identity_or_zero, Response, respond, write_error, internal, says, cause, because,
  empty, thread, threads, buddy, buddies, created, api_key, to_thread_resp, to_buddy_resp,
}
use clawgard.Api.World.{World, Handler, query, attempt, or_refuse}
use clawgard.Api.Hatchling.{bad_request, thread_missing, buddy_error}

-- `requireAdmin`: the handler behind it runs only for an identity with `Admin`.
unfoldable pub require_admin : Option Identity → Handler Response → Handler Response
require_admin ctx next = do
  id ← or_refuse ctx (write_error 401 "unauthorized" (says "no identity"))
  guard id.admin (write_error 403 "forbidden" (says "admin required"))
  next

-- What crypto/rand and bcrypt answer: `none` is an error.
pub record Keygen : Type 0 where
  pub random : Option String
  pub hash : String → Option String

-- GenerateAPIKey: the prefix and the encoded random bytes.
unfoldable pub generate_api_key : Keygen → Option String
generate_api_key k = elim k.random [ none ↦ none | some s ↦ some (◌<>◌ "ck_" s) ]

pub record CreateBuddyRequest : Type 0 where
  pub name : String
  pub description : String
  pub acl : Acl

abbrev pub default_mode : Acl → Acl
default_mode acl = if acl.mode == "" then record acl { mode = "public" } else acl

module _ (u : Uuid) where
  unfoldable pub admin_create_buddy :
      Keygen → Option Identity → Option CreateBuddyRequest → Handler Response
  unfolding generate_api_key
  admin_create_buddy keys ctx body = do
    req ← or_refuse body (bad_request "malformed json")
    guard (not (req.name == "")) (bad_request "name required")
    key ← or_refuse (generate_api_key keys) (write_error 500 "internal" (says "keygen failed"))
    hash ← or_refuse (keys.hash key) (write_error 500 "internal" (says "hash failed"))
    b ←
        attempt
          (create (record {
            name = req.name;
            description = req.description;
            owner_email = (identity_or_zero ctx).email;
            api_key_hash = hash;
            acl = default_mode req.acl;
          }))
          (λ e. write_error 500 "internal" (because "create failed: " e))
    pure (respond 201 (created (to_buddy_resp u b) key))

  unfoldable pub admin_list_buddies : Handler Response
  admin_list_buddies = do
    bs ← attempt list_all internal
    pure (respond 200 (buddies (map (to_buddy_resp u) bs)))

  unfoldable pub admin_update_buddy : String → Option UpdateBuddy → Handler Response
  admin_update_buddy param body = do
    id ← or_refuse (u.parse param) (bad_request "bad id")
    req ← or_refuse body (bad_request "bad body")
    b ← attempt (update id req) buddy_error
    pure (respond 200 (buddy (to_buddy_resp u b)))

  unfoldable pub admin_rotate_buddy_key : Keygen → String → Handler Response
  unfolding generate_api_key
  admin_rotate_buddy_key keys param = do
    id ← or_refuse (u.parse param) (bad_request "bad id")
    key ← or_refuse (generate_api_key keys) (write_error 500 "internal" (says "keygen failed"))
    hash ← or_refuse (keys.hash key) (write_error 500 "internal" (says "hash failed"))
    attempt (update_api_key_hash id hash) buddy_error
    pure (respond 200 (api_key key))

  unfoldable pub admin_delete_buddy : String → Handler Response
  admin_delete_buddy param = do
    id ← or_refuse (u.parse param) (bad_request "bad id")
    attempt (delete id) buddy_error
    pure (respond 204 empty)

  unfoldable pub admin_get_thread : String → Handler Response
  admin_get_thread param = do
    id ← or_refuse (u.parse param) (bad_request "bad id")
    t ← attempt (Threads.get id) thread_missing
    msgs ← attempt (list t.id) internal
    pure (respond 200 (thread (to_thread_resp u t msgs)))

  unfoldable pub admin_list_threads : ListFilter → Handler Response
  admin_list_threads filter = do
    total ← attempt (count_with_filter filter) internal
    found ← attempt (list_with_filter filter) internal
    pure (respond 200 (threads (map (λ t. to_thread_resp u t []) found) total))

-- The query of a listing: texts are "" when absent, and numbers and times `none` when they are
-- absent or do not parse.
pub record ThreadQuery : Type 0 where
  pub buddy_id : String
  pub hatchling_email : String
  pub from : Option ℕ
  pub to : Option ℕ
  pub page_size : Option ℕ
  pub page : Option ℕ

abbrev pub page_size_of : Option ℕ → ℕ
page_size_of none = 25
page_size_of (some n) = if ltb 0 n then (if ltb 200 n then 200 else n) else 25

abbrev pub page_of : Option ℕ → ℕ
page_of none = 1
page_of (some n) = if ltb 0 n then n else 1

-- The offset is an int64, which wraps for a page far enough.
unfoldable pub parse_thread_filter : Uuid → ThreadQuery → ListFilter
parse_thread_filter u q = record {
  buddy_id = u.parse q.buddy_id;
  hatchling_email = q.hatchling_email;
  from = q.from;
  to = q.to;
  limit = page_size_of q.page_size;
  offset = of_bits ((page_of q.page - 1) * page_size_of q.page_size);
}
