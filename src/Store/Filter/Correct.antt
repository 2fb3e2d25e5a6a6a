-- ===== src/Store/Filter/Correct.antt =====
-- What the clause that `buildFilterClause` of server/internal/store/threads.go makes selects.
use clawgard.Prelude.{
  ℕ, ◌≡◌, Bool, true, ◌&&◌, ◌||◌, Option, none, some, arith, leb, ◌==◌, Comparable-ℕ,
  Comparable-String,
}
use clawgard.Store.Db.{ThreadRow}
use clawgard.Store.Filter.{
  ListFilter, build_filter_clause, where_clause, all_hold, holds, list_query,
}

-- What a filter asks of a row.
abbrev pub buddy_wanted : Option ℕ → ThreadRow → Bool
buddy_wanted none r = true
buddy_wanted (some id) r = r.buddy_id == id

abbrev pub from_wanted : Option ℕ → ThreadRow → Bool
from_wanted none r = true
from_wanted (some t) r = leb t r.created_at

abbrev pub to_wanted : Option ℕ → ThreadRow → Bool
to_wanted none r = true
to_wanted (some t) r = leb r.created_at t

abbrev pub wanted : ListFilter → ThreadRow → Bool
wanted f r =
    buddy_wanted f.buddy_id r
    && (f.hatchling_email == "" || r.hatchling_email == f.hatchling_email)
    && from_wanted f.from r
    && to_wanted f.to r

-- The conditions that a filter makes, numbered from 1, hold for exactly the rows that it wants: the
-- placeholders meet their arguments whichever of the conditions there are.
pub where_clause_lem :
    (f : ListFilter) (r : ThreadRow) → where_clause (build_filter_clause f 1) r ≡ wanted f r
unfolding where_clause build_filter_clause all_hold holds
where_clause_lem f r = ground arith

-- The arguments of LIMIT and OFFSET behind them change nothing.
pub list_query_lem :
    (f : ListFilter) (r : ThreadRow) → where_clause (list_query f).clause r ≡ wanted f r
unfolding where_clause list_query build_filter_clause all_hold holds
list_query_lem f r = ground arith
