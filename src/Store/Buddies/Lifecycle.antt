-- ===== src/Store/Buddies/Lifecycle.antt =====
-- A buddy from its creation to its deletion, in server/internal/store/buddies.go.
use clawgard.Prelude.{
  ℕ, ◌≡◌, refl, ap, ◌∙◌, String, Bool, true, false, ◌&&◌, ◌||◌, Option, none, some, List, [], ◌∷◌,
  ◌++◌, arith, ◌+◌, ◌==◌, Comparable-ℕ, Comparable-String, if◌then◌else◌, exists, find?,
  update_where, nat_eq_iff, eq_iff,
}
use clawgard.Exec.{ok, err, ◌>>=◌}
use clawgard.Store.Db.{Db, BuddyRow, buddy_not_found, statement, new_uuid, check_acl_mode}
use clawgard.Store.Db.Calm.{statement-calm}
use clawgard.Store.Messages.Calm.{next_id}
use clawgard.Store.Threads.{text_or_empty}
use clawgard.Store.Buddies.{
  Buddy, nullable, NewBuddy, is_null, is_live, scan_row, scan_buddy, new_buddy_row, insert_buddy,
  users_or_empty, create, select_buddy, get_by_id, get_by_name, update_live, delete, visible,
}

abbrev deleted_row : ℕ → BuddyRow → BuddyRow
deleted_row now r = record r { deleted_at = some now }

abbrev deleted : ℕ → Db → Db
deleted id db = record db { buddies = update_where (is_live id) (deleted_row db.now) db.buddies }

-- No live row of the key is left.
exists-deleted :
    (id now : ℕ) (rows : List BuddyRow)
    → exists (is_live id) (update_where (is_live id) (deleted_row now) rows) ≡ false
exists-deleted id now [] = refl
exists-deleted id now (r ∷ rs) = ground (arith, exists-deleted id now rs)

find?-none :
    (p : BuddyRow → Bool) (rows : List BuddyRow) → exists p rows ≡ false → find? p rows ≡ none
find?-none p [] h = refl
find?-none p (r ∷ rs) h = ground (arith, find?-none p rs)

get_by_id-missing :
    (id : ℕ) (db : Db)
    → db.schedule ≡ []
    → exists (is_live id) db.buddies ≡ false
    → get_by_id id db ≡ (err buddy_not_found, db)
unfolding get_by_id select_buddy
get_by_id-missing id db calm gone =
    ap scan_row (statement-calm (select_buddy (is_live id)) db calm)
    ∙ rw (find?-none (is_live id) db.buddies gone, select_buddy) refl

delete-calm :
    (id : ℕ) (db : Db)
    → db.schedule ≡ []
    → delete id db ≡ (
        if exists (is_live id) db.buddies
        then (ok tt, deleted id db)
        else (err buddy_not_found, db))
unfolding delete update_live
delete-calm id db calm = statement-calm (update_live id (λ now r. deleted_row now r)) db calm

listed-deleted :
    (id now : ℕ) (email : String) (groups : List String) (rows : List BuddyRow)
    → exists
        (λ r. r.id == id && visible email groups r)
        (update_where (is_live id) (deleted_row now) rows)
      ≡ false
unfolding visible
listed-deleted id now email groups [] = refl
listed-deleted id now email groups (r ∷ rs) = ground (arith, listed-deleted id now email groups rs)

-- While statements run: deleting a live buddy succeeds, and then the buddy is found no more, no caller
-- is listed it, and deleting it again is an error that changes nothing.
pub delete_lem :
    (id : ℕ) (email : String) (groups : List String) (db : Db)
    → db.schedule ≡ []
    → exists (is_live id) db.buddies ≡ true
    → let (r, db') = delete id db in
      (r ≡ ok tt)
      × (get_by_id id db' ≡ (err buddy_not_found, db'))
      × (exists (λ x. x.id == id && visible email groups x) db'.buddies ≡ false)
      × (delete id db' ≡ (err buddy_not_found, db'))
delete_lem id email groups db calm live =
    rw (delete-calm id db calm, live)
      (
        refl,
        get_by_id-missing id (deleted id db) calm (exists-deleted id db.now db.buddies),
        listed-deleted id db.now email groups db.buddies,
        delete-calm id (deleted id db) calm ∙ rw (exists-deleted id db.now db.buddies) refl,
      )

nullable_lem : (t : String) → text_or_empty (nullable t) ≡ t
nullable_lem t = ground (arith, eq_iff t "")

users_lem :
    (o : Option (List String))
    → some (users_or_empty o) ≡ elim o [ none ↦ some [] | some us ↦ some us ]
users_lem none = refl
users_lem (some us) = refl

module _ (b : NewBuddy) (db : Db) where
  abbrev created_row : BuddyRow
  created_row = new_buddy_row (next_id db) b (users_or_empty b.acl.users) db.now

  abbrev created_db : Db
  created_db = record db { buddies = db.buddies ++ created_row ∷ []; drawn = db.drawn + 1 }

  -- The buddy as it was given.
  abbrev pub given : Buddy
  given = record {
    id = db.uuids db.drawn;
    name = b.name;
    description = b.description;
    owner_email = b.owner_email;
    api_key_hash = b.api_key_hash;
    acl = record {
      mode = b.acl.mode;
      group_id = b.acl.group_id;
      users = elim b.acl.users [ none ↦ some [] | some us ↦ some us ];
    };
    created_at = db.now;
    last_seen_at = none;
    deleted_at = none;
  }

  scan_buddy-created : scan_buddy created_row ≡ given
  scan_buddy-created = rw (nullable_lem b.acl.group_id, users_lem b.acl.users) refl

  find-created :
      (p : BuddyRow → Bool) (rows : List BuddyRow)
      → ((r : BuddyRow) → (r.id == next_id db || r.name == b.name) ≡ false → p r ≡ false)
      → exists (λ r. r.id == next_id db || r.name == b.name) rows ≡ false
      → p created_row ≡ true
      → find? p (rows ++ created_row ∷ []) ≡ some created_row
  find-created p [] only new hit = ground arith
  find-created p (r ∷ rs) only new hit = ground (arith, only r, find-created p rs only)

  module _ (calm : db.schedule ≡ [])
      (new : exists (λ r. r.id == next_id db || r.name == b.name) db.buddies ≡ false)
      (mode : check_acl_mode b.acl.mode ≡ true) where
    creates : create b db ≡ (ok (scan_buddy created_row), created_db)
    unfolding create new_uuid insert_buddy ◌>>=◌
    creates =
        rw
          (statement-calm (insert_buddy (next_id db) b (users_or_empty b.acl.users))
            (record db { drawn = db.drawn + 1 }) calm)
          (rw (new, mode) refl)

    selects :
        (p : BuddyRow → Bool)
        → find? p created_db.buddies ≡ some created_row
        → scan_row (statement (select_buddy p) created_db)
          ≡ (ok (scan_buddy created_row), created_db)
    unfolding select_buddy
    selects p h =
        ap scan_row (statement-calm (select_buddy p) created_db calm) ∙ rw (h, select_buddy) refl

    -- A buddy with a new name and a known mode of access is created while statements run, and is then
    -- found by its key and by its name. All three give back its name, description, owner, key's hash,
    -- mode, group and users as they were given (a list of users that is missing is an empty one), with
    -- the time of the creation, never seen and not deleted.
    pub create_lem :
        let (r, db') = create b db in
        (r ≡ ok given)
        × (get_by_id (db.uuids db.drawn) db' ≡ (ok given, db'))
        × (get_by_name b.name db' ≡ (ok given, db'))
    unfolding get_by_id get_by_name
    create_lem = rw creates (
      ap ok scan_buddy-created,
      selects (is_live (next_id db)) (
            find-created (is_live (next_id db)) db.buddies (λ r h. ground arith) new
              (ground (arith, nat_eq_iff (next_id db) (next_id db))))
          ∙ ap (λ (x : Buddy). (ok x, created_db)) scan_buddy-created,
      selects (λ r. r.name == b.name && is_null r.deleted_at)
            (find-created (λ r. r.name == b.name && is_null r.deleted_at) db.buddies
              (λ r h. ground arith) new (ground (arith, eq_iff b.name b.name)))
          ∙ ap (λ (x : Buddy). (ok x, created_db)) scan_buddy-created,
    )
