-- ===== src/Api/Admin/Pages.antt =====
-- The pages of the admin's listing in server/internal/api/admin.go.
use clawgard.Prelude.{
  ℕ, zero, suc, ◌≤◌, ◌≡◌, refl, sym, ap, subst, ◌∙◌, Option, none, some, List, [], ◌∷◌, map, arith,
  length, take, drop, keep, order_by, ℤ,
}
use clawgard.Exec.{Result, ok, err}
use clawgard.Store.Db.{Db, Error, ThreadRow, pass_time}
use clawgard.Store.Db.Calm.{statement-ok}
use clawgard.Store.Threads.{Thread, scan_thread}
use clawgard.Store.Filter.{
  ListFilter, list_query, list_with_filter, newest_first, selected, where_clause,
}
use clawgard.Store.Filter.Pages.{skip, page, page_lem}
use clawgard.Api.Http.{Uuid}
use clawgard.Api.Admin.{ThreadQuery, page_size_of, parse_thread_filter}

page_size_bounds : (n : Option ℕ) → (1 ≤ page_size_of n) × (page_size_of n ≤ 200)
page_size_bounds none = (omega arith, omega arith)
page_size_bounds (some n) = (ground arith, ground arith)

length-take : (n : ℕ) (rows : List ThreadRow) → length (take n rows) ≤ n
length-take zero rows = omega arith
length-take (suc n) [] = omega arith
length-take (suc n) (x ∷ xs) = omega (arith, length-take n xs)

length-page : (n : ℕ) (o : ℤ) (rows : List ThreadRow) → 1 ≤ n → length (page n o rows) ≤ n
length-page n o rows h = ground (arith, length-take n (drop (skip o) rows))

length-selected :
    (f : ListFilter) (rows : List ThreadRow)
    → 1 ≤ f.limit
    → length (selected (list_query f) rows) ≤ f.limit
length-selected f rows h =
    rw (page_lem f (order_by newest_first (keep (where_clause (list_query f).clause) rows)))
      (length-page f.limit f.offset _ h)

length-map : (f : ThreadRow → Thread) (rows : List ThreadRow) → length (map f rows) ≡ length rows
length-map f [] = refl
length-map f (x ∷ xs) = omega (arith, length-map f xs)

listed : Result Error (List Thread) × Db → ℕ
listed (ok ts, db) = length ts
listed (err e, db) = 0

-- Whatever page and page size a query asks for, a listing has at most 200 threads: the page size is
-- from 1 to 200, and the database's answer is no longer than it.
pub list_with_filter-page :
    (u : Uuid) (q : ThreadQuery) (db db' : Db) (ts : List Thread)
    → list_with_filter (parse_thread_filter u q) db ≡ (ok ts, db')
    → (1 ≤ (parse_thread_filter u q).limit)
      × (length ts ≤ (parse_thread_filter u q).limit)
      × ((parse_thread_filter u q).limit ≤ 200)
unfolding parse_thread_filter list_with_filter listed
list_with_filter-page u q db db' ts h =
    let f = parse_thread_filter u q in
    let rows = selected (list_query f) (pass_time db).threads in
    (
      (page_size_bounds q.page_size).0,
      subst (λ n. n ≤ page_size_of q.page_size)
          (sym (length-map scan_thread rows) ∙ ap listed (statement-ok _ db db' ts h))
          (length-selected f (pass_time db).threads (page_size_bounds q.page_size).0),
      (page_size_bounds q.page_size).1,
    )
