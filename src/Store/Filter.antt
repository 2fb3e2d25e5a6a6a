-- ===== src/Store/Filter.antt =====
-- The filtered listing of server/internal/store/threads.go: `buildFilterClause` as the conditions
-- and the arguments that it collects, each condition with the number of its placeholder.
pub mod Correct
pub mod Digits
pub mod Pages
use clawgard.Prelude.{
  ℕ, zero, suc, ◌+◌, ◌-◌, ◌*◌, ◌/◌, ◌%◌, String, Bool, true, false, ◌&&◌, Option, none, some, List,
  [], ◌∷◌, ◌++◌, map, ltb, leb, ◌==◌, Comparable-ℕ, Comparable-String, if◌then◌else◌, ℤ, pos,
  negsuc, length, get_elem?, take, drop, keep, order_by,
}
use clawgard.Exec.{Result, ok, err}
use clawgard.Store.Db.{Db, ThreadRow, Error, Sql, statement}
use clawgard.Store.Threads.{Thread, scan_thread}

pub record ListFilter : Type 0 where
  pub buddy_id : Option ℕ
  pub hatchling_email : String
  pub from : Option ℕ
  pub to : Option ℕ
  pub limit : ℕ
  pub offset : ℤ

-- ` AND buddy_id=$n`, ` AND hatchling_email=$n`, ` AND created_at>=$n`, ` AND created_at<=$n`
pub data Condition : Type 0 where
  buddy_is email_is created_from created_to : ℕ → Condition

-- The Go value behind a placeholder.
pub data Arg : Type 0 where
  uuid : ℕ → Arg
  text : String → Arg
  time : ℕ → Arg
  number : ℕ → Arg

pub record Clause : Type 0 where
  pub conditions : List Condition
  pub args : List Arg
  pub idx : ℕ

-- `q += …; args = append(args, …); idx++`
abbrev pub add : (ℕ → Condition) → Arg → Clause → Clause
add c a cl = record {
  conditions = cl.conditions ++ c cl.idx ∷ [];
  args = cl.args ++ a ∷ [];
  idx = cl.idx + 1;
}

abbrev pub add_time : (ℕ → Condition) → Option ℕ → Clause → Clause
add_time c none cl = cl
add_time c (some t) cl = add c (time t) cl

abbrev pub add_buddy : Option ℕ → Clause → Clause
add_buddy none cl = cl
add_buddy (some id) cl = add buddy_is (uuid id) cl

abbrev pub add_email : String → Clause → Clause
add_email e cl = if e == "" then cl else add email_is (text e) cl

unfoldable pub build_filter_clause : ListFilter → ℕ → Clause
build_filter_clause f start = add_time created_to f.to (
    add_time created_from f.from (
      add_email f.hatchling_email
        (add_buddy f.buddy_id (record { conditions = []; args = []; idx = start }))))

-- What the database makes of the clause: `$n` is the n-th argument, from 1; a placeholder with no
-- argument, or with one of another type, is an error, for which no row matches here.
abbrev pub arg_at : ℕ → List Arg → Option Arg
arg_at zero args = none
arg_at (suc n) args = get_elem? args n

abbrev pub buddy_matches : Option Arg → ThreadRow → Bool
buddy_matches (some (uuid id)) r = r.buddy_id == id
buddy_matches _ r = false

abbrev pub email_matches : Option Arg → ThreadRow → Bool
email_matches (some (text e)) r = r.hatchling_email == e
email_matches _ r = false

abbrev pub from_matches : Option Arg → ThreadRow → Bool
from_matches (some (time t)) r = leb t r.created_at
from_matches _ r = false

abbrev pub to_matches : Option Arg → ThreadRow → Bool
to_matches (some (time t)) r = leb r.created_at t
to_matches _ r = false

unfoldable pub holds : List Arg → Condition → ThreadRow → Bool
holds args (buddy_is n) r = buddy_matches (arg_at n args) r
holds args (email_is n) r = email_matches (arg_at n args) r
holds args (created_from n) r = from_matches (arg_at n args) r
holds args (created_to n) r = to_matches (arg_at n args) r

unfoldable pub all_hold : List Arg → List Condition → ThreadRow → Bool
unfolding holds
all_hold args [] r = true
all_hold args (c ∷ cs) r = holds args c r && all_hold args cs r

unfoldable pub where_clause : Clause → ThreadRow → Bool
unfolding all_hold
where_clause cl r = all_hold cl.args cl.conditions r

-- ORDER BY created_at DESC. Rows of the same time stand in the order of the table here; the database
-- promises none for them.
abbrev pub newest_first : ThreadRow → ThreadRow → Bool
newest_first a b = leb b.created_at a.created_at

-- The clause with its ` LIMIT $n` and ` OFFSET $n`, if it has them.
pub record Query : Type 0 where
  pub clause : Clause
  pub limit : Option ℕ
  pub offset : Option ℕ

-- `args = append(args, …); idx++`
abbrev pub push : ℕ → Clause → Clause
push n cl = record cl { args = cl.args ++ number n ∷ []; idx = cl.idx + 1 }

abbrev pub add_limit : ℕ → Query → Query
add_limit limit q =
    if ltb 0 limit then record q { clause = push limit q.clause; limit = some q.clause.idx } else q

abbrev pub add_offset : ℤ → Query → Query
add_offset (pos n) q =
    if ltb 0 n then record q { clause = push n q.clause; offset = some q.clause.idx } else q
add_offset (negsuc n) q = q

unfoldable pub list_query : ListFilter → Query
unfolding build_filter_clause
list_query f =
    add_offset f.offset
      (add_limit f.limit (record { clause = build_filter_clause f 1; limit = none; offset = none }))

-- What the database makes of LIMIT and OFFSET, by the argument of their placeholder.
abbrev pub taken : Option Arg → List ThreadRow → List ThreadRow
taken (some (number n)) rows = take n rows
taken _ rows = []

abbrev pub limited : List Arg → Option ℕ → List ThreadRow → List ThreadRow
limited args none rows = rows
limited args (some n) rows = taken (arg_at n args) rows

abbrev pub skipped : Option Arg → List ThreadRow → List ThreadRow
skipped (some (number n)) rows = drop n rows
skipped _ rows = []

abbrev pub from_offset : List Arg → Option ℕ → List ThreadRow → List ThreadRow
from_offset args none rows = rows
from_offset args (some n) rows = skipped (arg_at n args) rows

abbrev pub selected : Query → List ThreadRow → List ThreadRow
selected q rows =
    let args = q.clause.args in
    limited args q.limit
      (from_offset args q.offset (order_by newest_first (keep (where_clause q.clause) rows)))

unfoldable pub list_with_filter : ListFilter → Sql (List Thread)
unfolding list_query where_clause
list_with_filter f =
    statement (λ db. (ok (map scan_thread (selected (list_query f) db.threads)), db))

unfoldable pub count_with_filter : ListFilter → Sql ℕ
unfolding build_filter_clause where_clause
count_with_filter f =
    statement (λ db. (ok (length (keep (where_clause (build_filter_clause f 1)) db.threads)), db))

-- `itoa`, as the bytes of its buffer: digits are written from the back. Fuel is the size of the
-- buffer, 16 bytes.
unfoldable pub digits : ℕ → ℕ → List ℕ → List ℕ
digits zero i out = out
digits (suc f) zero out = out
digits (suc f) (suc i) out = digits f (suc i / 10) ((b'0' + suc i % 10) ∷ out)

unfoldable pub itoa : ℕ → List ℕ
unfolding digits
itoa i = if i == 0 then b'0' ∷ [] else digits 16 i []
