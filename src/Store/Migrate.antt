-- ===== src/Store/Migrate.antt =====
-- server/internal/store/migrate.go. What a transaction has done is pending until its commit; the
-- environment says for each coming call of the database whether it runs, fails, or runs and loses its
-- answer, and calls run when it says nothing more. One server migrates at a time, so that a row which
-- was missing at the check is no duplicate at the insert.
pub mod Applied
pub mod Order
pub mod Runs
use clawgard.Prelude.{
  ℕ, ◌-◌, String, Bool, true, false, ◌&&◌, Option, none, some, List, [], ◌∷◌, ◌++◌, if◌then◌else◌,
  leb, ltb, length, drop, keep, exists, order_by, ◌==◌, Comparable-ℕ, Comparable-String, codes,
  same_bytes,
}
use clawgard.Exec.{Result, ok, err, Exec, pure, leave, reads, ◌>>=◌, ◌>>◌}
use clawgard.Store.Db.{Outcome, works, refused, lost}

-- Which wrapping of the error is returned.
pub data MigrateError : Type 0 where
  create_schema_migrations list_migrations no_migrations : MigrateError
  check_migration read_migration begin_tx apply_migration record_migration commit_migration :
      String → MigrateError

-- What a transaction does: the statements of a file's text, and the row of its name in
-- schema_migrations.
pub data Change : Type 0 where
  ran recorded : String → Change

pub record Schema : Type 0 where
  pub has_table : Bool
  -- committed, in this order
  pub done : List Change
  pub pending : List Change
  pub outcomes : List Outcome

-- The embedded directory: its entries and its files.
pub record MigrationFs : Type 0 where
  pub entries : Option (List String)
  pub read_file : String → Option String

abbrev pub Migration : Type 0 → Type 0
Migration A = Exec MigrateError Schema A

abbrev pub next_outcome : List Outcome → Outcome
next_outcome [] = works
next_outcome (o ∷ os) = o

abbrev pub later_outcomes : List Outcome → List Outcome
later_outcomes [] = []
later_outcomes (o ∷ os) = os

abbrev pub answered :
    Outcome → MigrateError → Schema → Schema → Result MigrateError (Unit {0}) × Schema
answered works e s t = (ok tt, t)
answered refused e s t = (err e, s)
answered lost e s t = (err e, t)

-- A call of the database that does `f` if it runs.
unfoldable pub call : MigrateError → (Schema → Schema) → Migration (Unit {0})
call e f s =
    let s' = record s { outcomes = later_outcomes s.outcomes } in
    answered (next_outcome s.outcomes) e s' (f s')

abbrev pub stage : Change → Schema → Schema
stage c s = record s { pending = s.pending ++ c ∷ [] }

abbrev pub commits : Schema → Schema
commits s = record s { done = s.done ++ s.pending; pending = [] }

-- `_ = tx.Rollback(ctx)` after an error; a commit that failed has ended its transaction as well.
abbrev pub or_rollback :
    Result MigrateError (Unit {0}) × Schema → Result MigrateError (Unit {0}) × Schema
or_rollback (ok u, s) = (ok u, s)
or_rollback (err e, s) = (err e, record s { pending = [] })

abbrev pub in_tx : Migration (Unit {0}) → Migration (Unit {0})
in_tx m s = or_rollback (m s)

abbrev pub is_row : String → Change → Bool
is_row name (ran text) = false
is_row name (recorded file) = file == name

-- SELECT EXISTS(SELECT 1 FROM schema_migrations WHERE filename=$1)
abbrev pub is_recorded : String → List Change → Bool
is_recorded name done = exists (is_row name) done

abbrev pub or_missing : {A : Type 0} → Option A → MigrateError → Migration A
or_missing none e = leave e
or_missing (some a) e = pure a

-- A file whose row is missing: its statements and its row in one transaction.
unfoldable pub apply_file : MigrationFs → String → Migration (Unit {0})
apply_file fs name = do
  body ← or_missing (fs.read_file name) (read_migration name)
  call (begin_tx name) (λ s. s)
  in_tx (call (apply_migration name) (stage (ran body)))
  in_tx (call (record_migration name) (stage (recorded name)))
  in_tx (call (commit_migration name) commits)

unfoldable pub migrate_file : MigrationFs → String → Migration (Unit {0})
unfolding apply_file
migrate_file fs name = do
  call (check_migration name) (λ s. s)
  there ← reads (λ (s : Schema). is_recorded name s.done)
  if there then pure tt else apply_file fs name

unfoldable pub migrate_files : MigrationFs → List String → Migration (Unit {0})
unfolding migrate_file
migrate_files fs [] = pure tt
migrate_files fs (name ∷ names) = migrate_file fs name >> migrate_files fs names

-- `<` on Go's strings compares bytes, which for UTF-8 is the order of the code points.
abbrev pub codes_leb : List ℕ → List ℕ → Bool
codes_leb [] ds = true
codes_leb (c ∷ cs) [] = false
codes_leb (c ∷ cs) (d ∷ ds) = if c == d then codes_leb cs ds else ltb c d

abbrev pub string_leb : String → String → Bool
string_leb s t = codes_leb (codes s) (codes t)

-- strings.HasSuffix
unfoldable pub has_suffix : String → String → Bool
has_suffix s t =
    leb (length (codes t)) (length (codes s))
    && same_bytes (drop (length (codes s) - length (codes t)) (codes s)) (codes t)

-- The files that are applied, in their order.
unfoldable pub sql_files : List String → List String
unfolding has_suffix
sql_files entries = order_by string_leb (keep (λ e. has_suffix e ".sql") entries)

abbrev pub some_files : List String → Migration (Unit {0})
some_files [] = leave no_migrations
some_files (f ∷ fs) = pure tt

unfoldable pub migrate : MigrationFs → Migration (Unit {0})
unfolding migrate_files sql_files
migrate fs = do
  call create_schema_migrations (λ s. record s { has_table = true })
  entries ← or_missing fs.entries list_migrations
  migrate_files fs (sql_files entries)
  some_files (sql_files entries)
