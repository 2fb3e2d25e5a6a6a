-- ===== src/Store/Buddies/Updates.antt =====
-- The changes of a buddy in server/internal/store/buddies.go.
use clawgard.Prelude.{
  ℕ, ◌≡◌, refl, ap, ◌∙◌, sym, inl, inr, String, Bool, true, false, ◌&&◌, Option, none, some, List,
  [], ◌∷◌, arith, ◌==◌, Comparable-ℕ, Comparable-String, if◌then◌else◌, find?, update_where,
  Bool-cases, eq_iff,
}
use clawgard.Exec.{ok}
use clawgard.Store.Db.{Db, BuddyRow, statement, check_acl_mode}
use clawgard.Store.Db.Calm.{statement-calm}
use clawgard.Store.Threads.{text_or_empty}
use clawgard.Store.Buddies.{
  Acl, Buddy, UpdateBuddy, is_null, is_live, scan_row, scan_buddy, nullable, set_description,
  set_acl_columns, update_row, update, select_buddy, get_by_id,
}

-- The first live row of a key, after a change that leaves keys and deletions as they are.
find?-updated :
    (id : ℕ) (f : BuddyRow → BuddyRow) (rows : List BuddyRow) (row : BuddyRow)
    → ((r : BuddyRow) → is_live id (f r) ≡ is_live id r)
    → find? (is_live id) rows ≡ some row
    → find? (is_live id) (update_where (is_live id) f rows) ≡ some (f row)
find?-updated id f [] row same h = cc
find?-updated id f (r ∷ rs) row same h = elim (Bool-cases (is_live id r)) [
  | inl hit ↦
      let there : r ≡ row = ground arith in
      rw (hit, same r, hit) (ap (λ (x : BuddyRow). some (f x)) there)
  | inr miss ↦ rw (miss, miss) (find?-updated id f rs row same (ground arith))
]

nullable-text : (s : String) → text_or_empty (nullable s) ≡ s
nullable-text s = elim (Bool-cases (s == "")) [
  | inl empty ↦ rw empty (sym ((eq_iff s "").0 empty))
  | inr given ↦ rw given refl
]

abbrev pub described : Option String → String → String
described none old = old
described (some d) old = d

module _ (id : ℕ) (description : Option String) (mode group : String) (us : List String)
    (row : BuddyRow) (db : Db) where
  abbrev pub acl : Acl
  acl = record { mode = mode; group_id = group; users = some us }

  abbrev pub change : UpdateBuddy
  change = record { description = description; acl = some acl }

  abbrev pub changed_row : BuddyRow → BuddyRow
  changed_row r = set_acl_columns acl us (set_description description r)

  abbrev pub changed_db : Db
  changed_db = record db { buddies = update_where (is_live id) changed_row db.buddies }

  abbrev pub changed_buddy : Buddy
  changed_buddy = record (scan_buddy row) {
    description = described description row.description;
    acl = acl;
  }

  scan-changed : scan_buddy (changed_row row) ≡ changed_buddy
  scan-changed = by_description description
    where
      by_description :
          (d : Option String)
          → scan_buddy (set_acl_columns acl us (set_description d row))
            ≡ record (scan_buddy row) { description = described d row.description; acl = acl }
      by_description none = rw (nullable-text group) refl
      by_description (some d) = rw (nullable-text group) refl

  still_live : (r : BuddyRow) → is_live id (changed_row r) ≡ is_live id r
  still_live r = by_description description
    where
      by_description :
          (d : Option String)
          → is_live id (set_acl_columns acl us (set_description d r)) ≡ is_live id r
      by_description none = refl
      by_description (some d) = refl

  module _ (calm : db.schedule ≡ []) (found : find? (is_live id) db.buddies ≡ some row)
      (known : check_acl_mode mode ≡ true) where
    row_updates : update_row id change db ≡ (ok (changed_row row), changed_db)
    unfolding update_row
    row_updates = rw (update_row, found, known) refl

    updates : update id change db ≡ (ok (scan_buddy (changed_row row)), changed_db)
    unfolding update
    updates =
        ap
          (λ (b : Bool).
            if b then get_by_id id db else scan_row (statement (update_row id change) db))
          (with_acl (is_null description))
        ∙ ap scan_row (statement-calm (update_row id change) db calm ∙ row_updates)
      where
        with_acl : (b : Bool) → (b && false) ≡ false
        with_acl true = refl
        with_acl false = refl

    -- A change of a live buddy's ACL, with a list of users and a known mode, and of its description,
    -- if one is given: the answer has the new values and keeps the others, and so does the buddy that
    -- is read afterwards. While statements run.
    pub update_lem :
        (update id change db ≡ (ok changed_buddy, changed_db))
        × (get_by_id id changed_db ≡ (ok changed_buddy, changed_db))
    unfolding get_by_id select_buddy
    update_lem = (
      updates ∙ ap (λ (b : Buddy). (ok b, changed_db)) scan-changed,
      ap scan_row (statement-calm (select_buddy (is_live id)) changed_db calm)
          ∙ rw (find?-updated id changed_row db.buddies row still_live found, select_buddy) refl
          ∙ ap (λ (b : Buddy). (ok b, changed_db)) scan-changed,
    )
