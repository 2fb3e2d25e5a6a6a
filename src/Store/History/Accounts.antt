-- ===== src/Store/History/Accounts.antt =====
-- The functions of server/internal/store/buddies.go and the history of the tables.
use clawgard.Prelude.{
  ℕ, ◌≡◌, refl, inl, inr, ◌⊎◌, subst, String, Bool, true, ◌&&◌, Option, none, some, List, [], ◌∷◌,
  ◌++◌, arith, exists, find?, update_where, All, All-append, update_where-All, Bool-cases,
  Option-cases, nat_eq, ◌||◌, ◌==◌, Comparable-String, not,
}
use mathlib.Core.Option.{some-injective}
use clawgard.Exec.{Result, ok, err}
use clawgard.Exec.Respects.{Respects-atom, Respects-at, Respects-bind}
use clawgard.Store.Db.{Db, BuddyRow, Error, no_rows, Sql, statement, check_acl_mode}
use clawgard.Store.Buddies.{
  Acl, NewBuddy, UpdateBuddy, scan_row, is_live, is_null, new_buddy_row, insert_buddy, create,
  users_or_empty, select_buddy, get_by_id, list_for_caller, list_all, set_description,
  set_acl_columns, set_acl, update_row, update, update_live, delete, touch_last_seen,
  update_api_key_hash,
}
use clawgard.Store.History.{
  Grows, Grows-refl, Grows-append, Grows-update_where, ThreadAdvances, ThreadAdvances-refl,
  BuddyAdvances, BuddyAdvances-refl, Evolves, Evolves-order,
}
use clawgard.Store.History.Statements.{Sound, statement-Sound, read-Sound, new_uuid-Sound}

-- A change of the table of buddies alone.
buddies-Evolves :
    (db : Db) (bs : List BuddyRow)
    → Grows BuddyAdvances db.buddies bs
    → (All (λ b. check_acl_mode b.acl_mode ≡ true) db.buddies
        → All (λ b. check_acl_mode b.acl_mode ≡ true) bs)
    → Evolves db (record db { buddies = bs })
buddies-Evolves db bs g m = record {
  advances = record {
    threads = Grows-refl ThreadAdvances ThreadAdvances-refl db.threads;
    buddies = g;
    messages = Grows-refl (λ m n. n ≡ m) (λ m. refl) db.messages;
    clock = omega arith;
  };
  sound = λ s. record {
    threads = s.threads;
    unique = s.unique;
    messages = s.messages;
    modes = m s.modes;
  };
}

update_buddies-Evolves :
    (p : BuddyRow → Bool) (f : BuddyRow → BuddyRow)
    → ((r : BuddyRow) → p r ≡ true → BuddyAdvances r (f r))
    → ((r : BuddyRow)
        → check_acl_mode r.acl_mode ≡ true
        → p r ≡ true
        → check_acl_mode (f r).acl_mode ≡ true)
    → (db : Db) → Evolves db (record db { buddies = update_where p f db.buddies })
update_buddies-Evolves p f adv modes db =
    buddies-Evolves db (update_where p f db.buddies)
      (Grows-update_where BuddyAdvances BuddyAdvances-refl p f db.buddies adv)
      (update_where-All (λ b. check_acl_mode b.acl_mode ≡ true) p f db.buddies modes)

insert_buddy-Sound : (id : ℕ) (b : NewBuddy) (us : List String) → Sound (insert_buddy id b us)
unfolding insert_buddy
insert_buddy-Sound id b us = Respects-atom _ (λ db.
    elim (Bool-cases (
      not (exists (λ r. nat_eq r.id id || r.name == b.name) db.buddies)
      && check_acl_mode b.acl.mode)) [
        | inl fine ↦ rw fine (
            buddies-Evolves db (db.buddies ++ new_buddy_row id b us db.now ∷ [])
              (Grows-append BuddyAdvances BuddyAdvances-refl db.buddies _)
              (λ m.
                All-append (λ x. check_acl_mode x.acl_mode ≡ true) db.buddies _ m
                  (ground arith, tt)))
        | inr bad ↦ rw bad (Evolves-order.same db)
      ])

scan_row-state : (x : Result Error BuddyRow × Db) → (scan_row x).1 ≡ x.1
scan_row-state (ok row, db) = refl
scan_row-state (err no_rows, db) = refl
scan_row-state (err e, db) = refl

-- `scanBuddy` after a statement.
scanned-Sound : (m : Sql BuddyRow) → Sound m → Sound (λ db. scan_row (statement m db))
scanned-Sound m h =
    Respects-atom _ (λ db. rw scan_row-state (Respects-at Evolves-order (statement-Sound m h) db))

pub create-Sound : (b : NewBuddy) → Sound (create b)
unfolding create
create-Sound b =
    Respects-bind Evolves _ _ new_uuid-Sound
      λ id. scanned-Sound _ (insert_buddy-Sound id b (users_or_empty b.acl.users))

select_buddy-Sound : (p : BuddyRow → Bool) → Sound (select_buddy p)
unfolding select_buddy
select_buddy-Sound p = Respects-atom _ (λ db. elim (Option-cases (find? p db.buddies)) [
  | inl e ↦ rw (e, select_buddy) (Evolves-order.same db)
  | inr (row, e) ↦ rw (e, select_buddy) (Evolves-order.same db)
])

pub get_by_id-Sound : (id : ℕ) → Sound (get_by_id id)
unfolding get_by_id
get_by_id-Sound id = scanned-Sound _ (select_buddy-Sound (is_live id))

pub list_for_caller-Sound :
    (email : String) (groups : List String) → Sound (list_for_caller email groups)
unfolding list_for_caller
list_for_caller-Sound email groups = statement-Sound _ (read-Sound _)

pub list_all-Sound : Sound list_all
unfolding list_all
list_all-Sound = statement-Sound _ (read-Sound _)

abbrev same_row : BuddyRow → BuddyRow
same_row r = r

-- The SET clause leaves the ACL alone, or writes one whose mode has passed the CHECK.
set_acl-cases :
    (o : Option Acl) (f : BuddyRow → BuddyRow)
    → set_acl o ≡ some f
    → (some same_row ≡ some f)
      ⊎ ((acl : Acl) × (us : List String) × (some (set_acl_columns acl us) ≡ some f)
          × (check_acl_mode acl.mode ≡ true))
set_acl-cases none f h = inl h
set_acl-cases (some acl) f h = elim (Option-cases acl.users) [
  | inl e ↦ absurd (cc (rw e at h))
  | inr (us, e) ↦ elim (Bool-cases (check_acl_mode acl.mode)) [
    | inl fine ↦ inr (acl, us, rw (e, fine) at h, fine)
    | inr bad ↦ absurd (cc (rw (e, bad) at h))
  ]
]

set_acl-advances :
    (o : Option Acl) (d : Option String) (f : BuddyRow → BuddyRow) (r : BuddyRow)
    → set_acl o ≡ some f
    → BuddyAdvances r (f (set_description d r))
set_acl-advances o d f r h = elim (set_acl-cases o f h) [
  | inl e ↦
      subst (λ g. BuddyAdvances r (g (set_description d r))) (some-injective _ _ e) (ground arith)
  | inr (acl, us, e, m) ↦
      subst (λ g. BuddyAdvances r (g (set_description d r))) (some-injective _ _ e) (ground arith)
]

set_acl-mode :
    (o : Option Acl) (d : Option String) (f : BuddyRow → BuddyRow) (r : BuddyRow)
    → set_acl o ≡ some f
    → check_acl_mode r.acl_mode ≡ true
    → check_acl_mode (f (set_description d r)).acl_mode ≡ true
set_acl-mode o d f r h m = elim (set_acl-cases o f h) [
  | inl e ↦
      subst (λ g. check_acl_mode (g (set_description d r)).acl_mode ≡ true) (some-injective _ _ e)
        (kept d)
  | inr (acl, us, e, fine) ↦
      subst (λ g. check_acl_mode (g (set_description d r)).acl_mode ≡ true) (some-injective _ _ e)
        fine
]
  where
    kept : (d : Option String) → check_acl_mode (set_description d r).acl_mode ≡ true
    kept none = m
    kept (some t) = m

update_row-Sound : (id : ℕ) (u : UpdateBuddy) → Sound (update_row id u)
unfolding update_row
update_row-Sound id u = Respects-atom _ (λ db. elim (Option-cases (find? (is_live id) db.buddies)) [
  | inl e ↦ rw (e, update_row) (Evolves-order.same db)
  | inr (row, e) ↦ elim (Option-cases (set_acl u.acl)) [
    | inl broken ↦ rw (e, broken, update_row) (Evolves-order.same db)
    | inr (f, fine) ↦
        rw (e, fine, update_row)
          (update_buddies-Evolves (is_live id) (λ x. f (set_description u.description x))
            (λ r _. set_acl-advances u.acl u.description f r fine)
            (λ r m _. set_acl-mode u.acl u.description f r fine m) db)
  ]
])

pub update-Sound : (id : ℕ) (u : UpdateBuddy) → Sound (update id u)
unfolding update
update-Sound id u = Respects-atom _ (λ db.
    elim (Bool-cases (is_null u.description && is_null u.acl)) [
      | inl empty ↦ rw empty (Respects-at Evolves-order (get_by_id-Sound id) db)
      | inr some_set ↦
          rw some_set (Respects-at Evolves-order (scanned-Sound _ (update_row-Sound id u)) db)
    ])

update_live-Sound :
    (id : ℕ) (f : ℕ → BuddyRow → BuddyRow)
    → ((now : ℕ) (r : BuddyRow) → is_live id r ≡ true → BuddyAdvances r (f now r))
    → ((now : ℕ) (r : BuddyRow) → (f now r).acl_mode ≡ r.acl_mode)
    → Sound (update_live id f)
unfolding update_live
update_live-Sound id f adv mode = Respects-atom _ (λ db.
    elim (Bool-cases (exists (is_live id) db.buddies)) [
      | inl there ↦ rw there (
          update_buddies-Evolves (is_live id) (f db.now) (adv db.now)
            (λ r m _. rw (mode db.now r) m) db)
      | inr missing ↦ rw missing (Evolves-order.same db)
    ])

pub delete-Sound : (id : ℕ) → Sound (delete id)
unfolding delete
delete-Sound id =
    statement-Sound _ (update_live-Sound id _ (λ now r h. ground arith) (λ now r. refl))

pub touch_last_seen-Sound : (id : ℕ) → Sound (touch_last_seen id)
unfolding touch_last_seen
touch_last_seen-Sound id = statement-Sound _ (
    Respects-atom _ (λ db.
      update_buddies-Evolves (λ r. nat_eq r.id id) (λ r. record r { last_seen_at = some db.now })
        (λ r h. ground arith) (λ r m _. m) db))

pub update_api_key_hash-Sound : (id : ℕ) (hash : String) → Sound (update_api_key_hash id hash)
unfolding update_api_key_hash
update_api_key_hash-Sound id hash =
    statement-Sound _ (update_live-Sound id _ (λ now r h. ground arith) (λ now r. refl))
