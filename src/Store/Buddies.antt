-- ===== src/Store/Buddies.antt =====
-- server/internal/store/buddies.go
pub mod Lifecycle
pub mod Updates
use clawgard.Prelude.{
  ℕ, String, Bool, true, false, ◌&&◌, ◌||◌, not, Option, none, some, List, [], ◌∷◌, ◌++◌, map, ◌==◌,
  Comparable-ℕ, Comparable-String, if◌then◌else◌, find?, exists, keep, update_where, order_by,
}
use clawgard.Exec.{Result, ok, err, ◌>>=◌}
use clawgard.Store.Db.{
  Db, BuddyRow, Error, constraint, no_rows, buddy_not_found, Sql, statement, new_uuid,
  check_acl_mode,
}
use clawgard.Store.Threads.{text_or_empty}

-- `users` is `none` for Go's nil slice, which the driver sends as NULL.
pub record Acl : Type 0 where
  pub mode : String
  pub group_id : String
  pub users : Option (List String)

pub record Buddy : Type 0 where
  pub id : ℕ
  pub name : String
  pub description : String
  pub owner_email : String
  pub api_key_hash : String
  pub acl : Acl
  pub created_at : ℕ
  pub last_seen_at : Option ℕ
  pub deleted_at : Option ℕ

pub record NewBuddy : Type 0 where
  pub name : String
  pub description : String
  pub owner_email : String
  pub api_key_hash : String
  pub acl : Acl

pub record UpdateBuddy : Type 0 where
  pub description : Option String
  pub acl : Option Acl

abbrev pub nullable : String → Option String
nullable s = if s == "" then none else some s

abbrev pub scan_buddy : BuddyRow → Buddy
scan_buddy r = record {
  id = r.id;
  name = r.name;
  description = r.description;
  owner_email = r.owner_email;
  api_key_hash = r.api_key_hash;
  acl = record {
    mode = r.acl_mode;
    group_id = text_or_empty r.acl_group_id;
    users = some r.acl_users;
  };
  created_at = r.created_at;
  last_seen_at = r.last_seen_at;
  deleted_at = r.deleted_at;
}

abbrev pub is_null {ℓ} : {A : Type ℓ} → Option A → Bool
is_null none = true
is_null (some _) = false

-- WHERE id=$1 AND deleted_at IS NULL
abbrev pub is_live : ℕ → BuddyRow → Bool
is_live id r = r.id == id && is_null r.deleted_at

-- QueryRow(…) and scanBuddy: no row is `ErrBuddyNotFound`.
abbrev pub scan_row : Result Error BuddyRow × Db → Result Error Buddy × Db
scan_row (ok row, db) = (ok (scan_buddy row), db)
scan_row (err no_rows, db) = (err buddy_not_found, db)
scan_row (err e, db) = (err e, db)

abbrev pub new_buddy_row : ℕ → NewBuddy → List String → ℕ → BuddyRow
new_buddy_row id b users now = record {
  id = id;
  name = b.name;
  description = b.description;
  acl_mode = b.acl.mode;
  acl_group_id = nullable b.acl.group_id;
  acl_users = users;
  owner_email = b.owner_email;
  api_key_hash = b.api_key_hash;
  created_at = now;
  last_seen_at = none;
  deleted_at = none;
}

-- INSERT INTO buddies: key and name are new among all rows, deleted ones included.
unfoldable pub insert_buddy : ℕ → NewBuddy → List String → Sql BuddyRow
insert_buddy id b users db =
    if not (exists (λ r. r.id == id || r.name == b.name) db.buddies) && check_acl_mode b.acl.mode
    then (
      ok (new_buddy_row id b users db.now),
      record db { buddies = db.buddies ++ new_buddy_row id b users db.now ∷ [] },
    )
    else (err constraint, db)

abbrev pub users_or_empty : Option (List String) → List String
users_or_empty none = []
users_or_empty (some us) = us

unfoldable pub create : NewBuddy → Sql Buddy
create b = do
  id ← new_uuid
  λ db. scan_row (statement (insert_buddy id b (users_or_empty b.acl.users)) db)

unfoldable pub select_buddy : (BuddyRow → Bool) → Sql BuddyRow
select_buddy p db = elim (find? p db.buddies) [ none ↦ (err no_rows, db) | some r ↦ (ok r, db) ]

unfoldable pub get_by_id : ℕ → Sql Buddy
get_by_id id db = scan_row (statement (select_buddy (is_live id)) db)

unfoldable pub get_by_name : String → Sql Buddy
get_by_name name db =
    scan_row (statement (select_buddy (λ r. r.name == name && is_null r.deleted_at)) db)

abbrev pub any_of : String → List String → Bool
any_of s ss = exists (λ x. x == s) ss

-- acl_group_id = ANY($2), which is not true of NULL
abbrev pub group_in : Option String → List String → Bool
group_in none groups = false
group_in (some g) groups = any_of g groups

-- The WHERE clause of `ListForCaller`.
unfoldable pub visible : String → List String → BuddyRow → Bool
visible email groups r =
    is_null r.deleted_at
    && (r.acl_mode == "public"
        || (r.acl_mode == "users" && any_of email r.acl_users)
        || (r.acl_mode == "group" && group_in r.acl_group_id groups)
        || r.owner_email == email)

unfoldable pub list_for_caller : String → List String → Sql (List Buddy)
list_for_caller email groups = statement λ db. (
  ok (
      map scan_buddy
        (order_by (λ a b. db.collate a.name b.name) (keep (visible email groups) db.buddies))),
  db,
)

unfoldable pub list_all : Sql (List Buddy)
list_all = statement λ db. (
  ok (
      map scan_buddy
        (order_by (λ a b. db.collate a.name b.name) (keep (λ r. is_null r.deleted_at) db.buddies))),
  db,
)

abbrev pub set_description : Option String → BuddyRow → BuddyRow
set_description none r = r
set_description (some d) r = record r { description = d }

abbrev pub set_acl_columns : Acl → List String → BuddyRow → BuddyRow
set_acl_columns acl us r = record r {
  acl_mode = acl.mode;
  acl_group_id = nullable acl.group_id;
  acl_users = us;
}

-- The ACL part of the SET clause; `none` when every row would break NOT NULL or CHECK.
abbrev pub set_acl : Option Acl → Option (BuddyRow → BuddyRow)
set_acl none = some (λ r. r)
set_acl (some acl) = elim acl.users [
  | none ↦ none
  | some us ↦ if check_acl_mode acl.mode then some (set_acl_columns acl us) else none
]

-- UPDATE buddies SET … WHERE id=$1 AND deleted_at IS NULL RETURNING …
unfoldable pub update_row : ℕ → UpdateBuddy → Sql BuddyRow
update_row id u db = elim (find? (is_live id) db.buddies) [
  | none ↦ (err no_rows, db)
  | some r ↦ elim (set_acl u.acl) [
    | none ↦ (err constraint, db)
    | some f ↦ (
      ok (f (set_description u.description r)),
      record db {
        buddies = update_where (is_live id) (λ x. f (set_description u.description x)) db.buddies;
      },
    )
  ]
]

unfoldable pub update : ℕ → UpdateBuddy → Sql Buddy
update id u db =
    if is_null u.description && is_null u.acl
    then get_by_id id db
    else scan_row (statement (update_row id u) db)

-- An UPDATE of the live row of `id` that reports how many rows it met; none is `ErrBuddyNotFound`.
unfoldable pub update_live : ℕ → (ℕ → BuddyRow → BuddyRow) → Sql (Unit {0})
update_live id f db =
    if exists (is_live id) db.buddies
    then (ok tt, record db { buddies = update_where (is_live id) (f db.now) db.buddies })
    else (err buddy_not_found, db)

unfoldable pub delete : ℕ → Sql (Unit {0})
delete id = statement (update_live id (λ now r. record r { deleted_at = some now }))

-- Deleted rows are touched too.
unfoldable pub touch_last_seen : ℕ → Sql (Unit {0})
touch_last_seen id = statement λ db. (
  ok tt,
  record db {
    buddies =
        update_where (λ r. r.id == id) (λ r. record r { last_seen_at = some db.now }) db.buddies;
  },
)

unfoldable pub update_api_key_hash : ℕ → String → Sql (Unit {0})
update_api_key_hash id hash = statement (update_live id (λ _ r. record r { api_key_hash = hash }))
