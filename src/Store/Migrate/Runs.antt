-- ===== src/Store/Migrate/Runs.antt =====
-- `Migrate` of server/internal/store/migrate.go as a whole.
use clawgard.Prelude.{
  ◌≡◌, ◌≢◌, refl, sym, ◌∙◌, ap, inl, inr, String, some, List, [], ◌∷◌, ◌++◌, true,
}
use mathlib.Core.List.{append-nil}
use clawgard.Exec.{Result, ok, err, resume, ◌>>=◌}
use clawgard.Store.Migrate.{
  MigrateError, create_schema_migrations, Schema, MigrationFs, later_outcomes, sql_files,
  some_files, migrate_files, migrate,
}
use clawgard.Store.Migrate.Applied.{
  missing, changes, Distinct, call_cases, Through, migrate_files-Through,
}
use clawgard.Store.Migrate.Order.{IsSorted, sql_files-Distinct, sql_files-IsSorted}

-- What a run of `Migrate` leaves, by the files whose rows were missing before it.
pub record Migrated (fs : MigrationFs) (files : List String) (s : Schema)
    (x : Result MigrateError (Unit {0}) × Schema) : Type 0 where
  -- no transaction is left open
  pub settled : x.1.pending ≡ []
  pub front : List String
  pub rest : List String
  pub split : missing s.done files ≡ front ++ rest
  -- the statements of the first ones, each with its row, come behind what was there
  pub done : x.1.done ≡ s.done ++ changes fs front
  pub sorted : IsSorted files
  -- without an error all of them are done, every file has its row, and there is a file
  pub all_done : x.0 ≡ ok tt → rest ≡ []
  pub rows : x.0 ≡ ok tt → missing x.1.done files ≡ []
  pub found : x.0 ≡ ok tt → files ≢ []

module _ (fs : MigrationFs) (entries : List String) (s : Schema) where
  not_begun :
      (e : MigrateError) (t : Schema)
      → t.pending ≡ []
      → t.done ≡ s.done
      → Migrated fs (sql_files entries) s (err e, t)
  not_begun e t clean same = record {
    settled = clean;
    front = [];
    rest = missing s.done (sql_files entries);
    split = refl;
    done = same ∙ sym (append-nil s.done);
    sorted = sql_files-IsSorted entries;
    all_done = λ h. cc;
    rows = λ h. cc;
    found = λ h. cc;
  }

  gone-Through :
      (files : List String) (t : Schema) (x : Result MigrateError (Unit {0}) × Schema)
      → IsSorted files
      → t.done ≡ s.done
      → Through fs files t x
      → Migrated fs files s (resume x.0 (λ _. some_files files) x.1)
  gone-Through files t (err e, u) sorted same r = record {
    settled = r.settled;
    front = r.front;
    rest = r.rest;
    split = ap (λ d. missing d files) (sym same) ∙ r.split;
    done = r.done ∙ ap (λ d. d ++ changes fs r.front) same;
    sorted = sorted;
    all_done = λ h. cc;
    rows = λ h. cc;
    found = λ h. cc;
  }
  gone-Through [] t (ok v, u) sorted same r = record {
    settled = r.settled;
    front = r.front;
    rest = r.rest;
    split = ap (λ d. missing d []) (sym same) ∙ r.split;
    done = r.done ∙ ap (λ d. d ++ changes fs r.front) same;
    sorted = sorted;
    all_done = λ h. cc;
    rows = λ h. cc;
    found = λ h. cc;
  }
  gone-Through (f ∷ files) t (ok v, u) sorted same r = record {
    settled = r.settled;
    front = r.front;
    rest = r.rest;
    split = ap (λ d. missing d (f ∷ files)) (sym same) ∙ r.split;
    done = r.done ∙ ap (λ d. d ++ changes fs r.front) same;
    sorted = sorted;
    all_done = λ h. r.all_done refl;
    rows = λ h. r.rows refl;
    found = λ h e. cc;
  }

-- A run of `Migrate`, whichever of its calls fail or lose their answers: it goes through the .sql files in
-- the order of their names, and from the first to some file puts the statements of each file that had no
-- row, together with its row, behind what was there; of no file is only a part there, nothing else
-- changes, and no transaction stays open. If it returns no error, every file has its row and there is
-- a file, so that a further run finds nothing missing. It is assumed that the directory is listed, with no
-- name twice, and that no transaction is open before.
pub migrate_lem :
    (fs : MigrationFs) (entries : List String) (s : Schema)
    → fs.entries ≡ some entries
    → Distinct entries
    → s.pending ≡ []
    → Migrated fs (sql_files entries) s (migrate fs s)
unfolding migrate ◌>>=◌
migrate_lem fs entries s listed distinct clean =
    elim (call_cases create_schema_migrations (λ t. record t { has_table = true }) s) [
      | inl c ↦
          let t = record s { has_table = true; outcomes = later_outcomes s.outcomes } in
          rw c (
            simp listed (
              gone-Through fs entries s (sql_files entries) t
                (migrate_files fs (sql_files entries) t) (sql_files-IsSorted entries) refl
                (migrate_files-Through fs (sql_files entries) t
                  (sql_files-Distinct entries distinct) clean)))
      | inr (inl c) ↦ rw c (not_begun fs entries s _ _ clean refl)
      | inr (inr c) ↦ rw c (not_begun fs entries s _ _ clean refl)
    ]
