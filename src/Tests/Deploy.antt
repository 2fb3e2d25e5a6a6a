-- ===== src/Tests/Deploy.antt =====
-- Examples for the start of the server.
use clawgard.Prelude.{
  ◌≡◌, refl, String, Option, leb, byte_length, ◌||◌, true, false, none, some, List, [], ◌∷◌,
  if◌then◌else◌, ◌==◌, Comparable-String, pos, strip_prefix,
}
use clawgard.Exec.{ok, err, ◌>>=◌}
use clawgard.Store.Db.{works, lost}
use clawgard.Store.Migrate.{
  commit_migration, read_migration, ran, recorded, Schema, MigrationFs, sql_files, call, migrate,
}
use clawgard.Store.Migrate.Applied.{missing}
use clawgard.Store.Migrate.Runs.{Migrated, migrate_lem}
use clawgard.Config.{Config}
use clawgard.Server.{short_secret, Surroundings, built, new_server}
use clawgard.Server.Routes.{IsWiredFor}
use clawgard.Server.Starting.{new_server_lem}
use clawgard.Server.Spa.{file, Dist, index, not_found, serve_spa}
use clawgard.Server.Command.{start_failed, migrate_failed, run}

abbrev entries : List String
entries = "0003_codes.sql" ∷ "README.md" ∷ "0002_threads.sql" ∷ "0001_init.sql" ∷ []

abbrev text : String → Option String
text name = if name == "0001_init.sql" then some "CREATE a" else some "CREATE b"

abbrev files : MigrationFs
files = record { entries = some entries; read_file = text }

-- The answer to the second commit is lost.
abbrev first_done : Schema
first_done = record {
  has_table = true;
  done = ran "CREATE a" ∷ recorded "0001_init.sql" ∷ [];
  pending = [];
  outcomes = works ∷ works ∷ works ∷ works ∷ works ∷ works ∷ lost ∷ [];
}

migrate_lem_example : Migrated files (sql_files entries) first_done (migrate files first_done)
migrate_lem_example =
    migrate_lem files entries first_done refl (refl, (refl, (refl, (refl, tt)))) refl

second_lost : migrate files first_done ≡ (
  err (commit_migration "0002_threads.sql"),
  record first_done {
    done =
        ran "CREATE a"
        ∷ recorded "0001_init.sql"
        ∷ ran "CREATE b"
        ∷ recorded "0002_threads.sql"
        ∷ [];
    outcomes = [];
  },
)
unfolding migrate ◌>>=◌ call
second_lost = refl

abbrev config : Config
config = record {
  http_addr = ":8080";
  database_url = "postgres://db";
  oidc_issuer = "";
  oidc_audience = "";
  thread_idle_seconds = pos 1800;
  sweeper_interval_seconds = 15;
  dev_mode = true;
  dev_admin_key = "";
  log_level = "warn";
  oidc_auth_url = "";
  oidc_token_url = "https://id/token";
  oidc_client_id = "relay";
  oidc_client_secret = "";
  oidc_redirect_url = "";
  session_secret = "0123456789abcdef0123456789abcdef";
  admin_emails = [];
  public_url = "";
  idp_mode = "mock";
}

abbrev around : Surroundings
around = record { opens = true; finds_provider = false; listens = true }

abbrev empty_db : Schema
empty_db = record { has_table = false; done = []; pending = []; outcomes = [] }

abbrev migrated : Schema
migrated = record empty_db {
  has_table = true;
  done =
      ran "CREATE a"
      ∷ recorded "0001_init.sql"
      ∷ ran "CREATE b"
      ∷ recorded "0002_threads.sql"
      ∷ ran "CREATE b"
      ∷ recorded "0003_codes.sql"
      ∷ [];
}

starts : new_server files around config empty_db ≡ (ok (built around config), migrated)
unfolding new_server migrate ◌>>=◌ call
starts = refl

new_server_lem_example :
    (missing migrated.done (sql_files entries) ≡ [])
    × (migrated.pending ≡ [])
    × ((config.session_secret == "" || leb 32 (byte_length config.session_secret)) ≡ true)
    × IsWiredFor true true true (built around config).routes
new_server_lem_example =
    new_server_lem files entries around config empty_db migrated (built around config) refl
      (refl, (refl, (refl, (refl, tt)))) refl starts

-- A path of the API is never answered by the embedded pages, and an unknown one by the index.
abbrev dist : Dist
dist = record {
  opens = λ p. p == "favicon.ico";
  file_server = λ p. record { status = 200; headers = []; body = file p };
}

pages_served :
    (serve_spa dist "/v1/unknown" ≡ not_found)
    × (serve_spa dist "/favicon.ico" ≡ dist.file_server "/favicon.ico")
    × (serve_spa dist "/threads/7" ≡ index)
unfolding serve_spa strip_prefix
pages_served = (refl, refl, refl)

-- `clawgard-server migrate` with a file that is not there.
missing_file :
    (run
      (record files { read_file = λ name. none })
      around
      (some config)
      true
      ("server" ∷ "migrate" ∷ [])
      empty_db).0
    ≡ err (migrate_failed (read_migration "0001_init.sql"))
unfolding run migrate ◌>>=◌ call
missing_file = refl

-- A secret of six bytes is a panic.
panics :
    (run files around
      (some (record config { session_secret = "secret" }))
      true
      ("server" ∷ "serve" ∷ [])
      empty_db).0
    ≡ err (start_failed short_secret)
unfolding run new_server migrate ◌>>=◌ call
panics = refl
