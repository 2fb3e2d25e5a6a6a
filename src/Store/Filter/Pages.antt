-- ===== src/Store/Filter/Pages.antt =====
-- The pages that `ListWithFilter` of server/internal/store/threads.go lists.
use mathlib.Core.List.{Perm}
use mathlib.Core.List.Perm
use clawgard.Prelude.{
  ℕ, ◌≤◌, ◌≡◌, refl, ◌∙◌, inl, inr, ℤ, pos, negsuc, Bool, List, [], ◌∷◌, map, arith, ltb,
  if◌then◌else◌, length, take, drop, keep, insert_by, order_by, All, Bool-cases,
}
use clawgard.Exec.{ok}
use clawgard.Store.Db.{Db, ThreadRow}
use clawgard.Store.Db.Calm.{statement-calm}
use clawgard.Store.Threads.{scan_thread}
use clawgard.Store.Filter.{
  ListFilter, build_filter_clause, where_clause, list_query, newest_first, limited, from_offset,
  count_with_filter, list_with_filter,
}
use clawgard.Store.Filter.Correct.{wanted, where_clause_lem, list_query_lem}

-- How many rows are skipped: an offset that is not positive is left out.
abbrev pub skip : ℤ → ℕ
skip (pos n) = n
skip (negsuc n) = 0

abbrev pub page : ℕ → ℤ → List ThreadRow → List ThreadRow
page limit offset rows =
    if ltb 0 limit then take limit (drop (skip offset) rows) else drop (skip offset) rows

-- The placeholders of LIMIT and OFFSET meet their arguments, whichever conditions stand before them.
pub page_lem :
    (f : ListFilter) (rows : List ThreadRow)
    → let q = list_query f in
      limited q.clause.args q.limit (from_offset q.clause.args q.offset rows)
      ≡ page f.limit f.offset rows
unfolding list_query build_filter_clause
page_lem f rows = ground arith

-- From the newest on.
abbrev pub Descending : List ThreadRow → Type 0
Descending [] = Unit {0}
Descending (x ∷ xs) = All (λ (y : ThreadRow). y.created_at ≤ x.created_at) xs × Descending xs

insert_by-All :
    (b : ℕ) (x : ThreadRow) (rows : List ThreadRow)
    → x.created_at ≤ b
    → All (λ (y : ThreadRow). y.created_at ≤ b) rows
    → All (λ (y : ThreadRow). y.created_at ≤ b) (insert_by newest_first x rows)
insert_by-All b x [] h k = (h, tt)
insert_by-All b x (y ∷ rows) h (k, ks) = elim (Bool-cases (newest_first x y)) [
  | inl here ↦ rw here (h, (k, ks))
  | inr on ↦ rw on (k, insert_by-All b x rows h ks)
]

All-below :
    (a b : ℕ) (rows : List ThreadRow)
    → a ≤ b
    → All (λ (y : ThreadRow). y.created_at ≤ a) rows
    → All (λ (y : ThreadRow). y.created_at ≤ b) rows
All-below a b [] h k = tt
All-below a b (y ∷ rows) h (k, ks) = (omega arith, All-below a b rows h ks)

insert_by-Descending :
    (x : ThreadRow) (rows : List ThreadRow)
    → Descending rows
    → Descending (insert_by newest_first x rows)
insert_by-Descending x [] h = (tt, tt)
insert_by-Descending x (y ∷ rows) (h, hs) = elim (Bool-cases (newest_first x y)) [
  | inl here ↦
      rw here ((ground arith, All-below y.created_at x.created_at rows (ground arith) h), (h, hs))
  | inr on ↦
      rw on (insert_by-All y.created_at x rows (ground arith) h, insert_by-Descending x rows hs)
]

order_by-Descending : (rows : List ThreadRow) → Descending (order_by newest_first rows)
order_by-Descending [] = tt
order_by-Descending (x ∷ rows) =
    insert_by-Descending x (order_by newest_first rows) (order_by-Descending rows)

insert_by-perm :
    (le : ThreadRow → ThreadRow → Bool) (x : ThreadRow) (rows : List ThreadRow)
    → Perm (insert_by le x rows) (x ∷ rows)
insert_by-perm le x [] = Perm.rfl
insert_by-perm le x (y ∷ rows) = elim (Bool-cases (le x y)) [
  | inl here ↦ rw here Perm.rfl
  | inr on ↦ rw on (Perm.trans (Perm.cons y (insert_by-perm le x rows)) (Perm.swap x y rows))
]

order_by-perm :
    (le : ThreadRow → ThreadRow → Bool) (rows : List ThreadRow) → Perm (order_by le rows) rows
order_by-perm le [] = Perm.rfl
order_by-perm le (x ∷ rows) =
    Perm.trans (insert_by-perm le x (order_by le rows)) (Perm.cons x (order_by-perm le rows))

keep-ext :
    (p q : ThreadRow → Bool) (rows : List ThreadRow)
    → ((r : ThreadRow) → p r ≡ q r)
    → keep p rows ≡ keep q rows
keep-ext p q [] h = refl
keep-ext p q (x ∷ xs) h = rw (h x, keep-ext p q xs h) refl

-- While statements run: the count is the number of rows that the filter wants; and the listing is what
-- an offset leaves, up to the limit, if it is positive, of those rows in an order from the newest on.
pub list_with_filter_lem :
    (f : ListFilter) (db : Db)
    → db.schedule ≡ []
    → let rows = keep (wanted f) db.threads in
      (count_with_filter f db ≡ (ok (length rows), db))
      × ((ordered : List ThreadRow) × Perm ordered rows
          × Descending ordered
          × (list_with_filter f db ≡ (
            ok (
                map scan_thread (
                  if ltb 0 f.limit
                  then take f.limit (drop (skip f.offset) ordered)
                  else drop (skip f.offset) ordered)),
            db,
          )))
unfolding count_with_filter list_with_filter
list_with_filter_lem f db calm =
    let rows = keep (wanted f) db.threads in
    (
      statement-calm _ db calm
          ∙ rw
              (keep-ext (where_clause (build_filter_clause f 1)) (wanted f) db.threads
                (where_clause_lem f))
              refl,
      (
        order_by newest_first rows,
        order_by-perm newest_first rows,
        order_by-Descending rows,
        statement-calm _ db calm
            ∙ rw
                (
                  keep-ext (where_clause (list_query f).clause) (wanted f) db.threads
                      (list_query_lem f),
                  page_lem f (order_by newest_first rows),
                )
                refl,
      ),
    )
