-- ===== src/Tests/Rows.antt =====
-- Examples for the store and the sweeper.
use clawgard.Prelude.{none, some}
use clawgard.Store.Buddies.{Buddy, update}
use clawgard.Store.Buddies.Updates.{change, changed_db, changed_buddy, update_lem}
use clawgard.Tests.Fixtures.{buddy_row}
use clawgard.Exec.{err}
use clawgard.Prelude.{◌≡◌, refl, pos, none, some, [], ◌∷◌, Comparable-ℕ, Comparable-String}
use clawgard.Exec.{ok}
use clawgard.Store.Threads.{scan_thread, increment_turns, closed_row}
use clawgard.Store.Threads.Turns.{increment_turns_lem}
use clawgard.Store.Filter.{ListFilter, list_with_filter, count_with_filter}
use clawgard.Store.Filter.Pages.{Descending, list_with_filter_lem}
use mathlib.Core.List.{Perm}
use clawgard.Prelude.{List, map, take}
use clawgard.Store.Db.{ThreadRow}
use clawgard.Store.Db.{buddy_not_found}
use clawgard.Prelude.{exists, ◌==◌, ◌&&◌, false, Comparable-ℕ}
use clawgard.Store.Buddies.{NewBuddy, create, delete, get_by_id, get_by_name, visible}
use clawgard.Store.Buddies.Lifecycle.{create_lem, delete_lem}
use clawgard.Sweeper.{run_once}
use clawgard.Sweeper.Idle.{run_once_lem}
use clawgard.Tests.Fixtures.{db, unique, open_row, full_row, ended_row}

increment_turns_lem_example : increment_turns 10 db ≡ (
  ok 2,
  record db {
    threads = (record open_row { turns = 2; last_activity_at = 100 }) ∷ full_row ∷ ended_row ∷ [];
  },
)
increment_turns_lem_example = increment_turns_lem 10 db refl unique

-- At time 100 with 50 of patience, the first thread is idle and the second is not.
run_once_lem_example :
    run_once (pos 50) db
    ≡ record db { threads = closed_row 100 "idle_timeout" open_row ∷ full_row ∷ ended_row ∷ [] }
run_once_lem_example = run_once_lem (pos 50) db refl unique

abbrev newer : ListFilter
newer = record {
  buddy_id = none;
  hatchling_email = "ana@x.org";
  from = some 10;
  to = none;
  limit = 2;
  offset = pos 0;
}

list_with_filter_lem_example :
    (count_with_filter newer db ≡ (ok 3, db))
    × ((ordered : List ThreadRow) × Perm ordered db.threads
        × Descending ordered
        × (list_with_filter newer db ≡ (ok (map scan_thread (take 2 ordered)), db)))
list_with_filter_lem_example = list_with_filter_lem newer db refl

delete_lem_example :
    ((delete 7 db).0 ≡ ok tt)
    × (get_by_id 7 (delete 7 db).1 ≡ (err buddy_not_found, (delete 7 db).1))
    × (exists (λ x. x.id == 7 && visible "ana@x.org" [] x) (delete 7 db).1.buddies ≡ false)
    × (delete 7 (delete 7 db).1 ≡ (err buddy_not_found, (delete 7 db).1))
delete_lem_example = delete_lem 7 "ana@x.org" [] db refl refl

abbrev new_buddy : NewBuddy
new_buddy = record {
  name = "ops";
  description = "on call";
  owner_email = "olga@x.org";
  api_key_hash = "h";
  acl = record { mode = "group"; group_id = "sre"; users = none };
}

abbrev created_buddy : Buddy
created_buddy = record {
  id = 100;
  name = "ops";
  description = "on call";
  owner_email = "olga@x.org";
  api_key_hash = "h";
  acl = record { mode = "group"; group_id = "sre"; users = some [] };
  created_at = db.now;
  last_seen_at = none;
  deleted_at = none;
}

create_lem_example :
    let db' = (create new_buddy db).1 in
    ((create new_buddy db).0 ≡ ok created_buddy)
    × (get_by_id 100 db' ≡ (ok created_buddy, db'))
    × (get_by_name "ops" db' ≡ (ok created_buddy, db'))
create_lem_example = create_lem new_buddy db refl refl refl

update_lem_example :
    (update 7 (change 7 none "users" "" ("ana@x.org" ∷ []) buddy_row db) db ≡ (
      ok (changed_buddy 7 none "users" "" ("ana@x.org" ∷ []) buddy_row db),
      changed_db 7 none "users" "" ("ana@x.org" ∷ []) buddy_row db,
    ))
    × (get_by_id 7 (changed_db 7 none "users" "" ("ana@x.org" ∷ []) buddy_row db) ≡ (
      ok (changed_buddy 7 none "users" "" ("ana@x.org" ∷ []) buddy_row db),
      changed_db 7 none "users" "" ("ana@x.org" ∷ []) buddy_row db,
    ))
update_lem_example = update_lem 7 none "users" "" ("ana@x.org" ∷ []) buddy_row db refl refl refl
