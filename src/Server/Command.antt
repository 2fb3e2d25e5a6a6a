-- ===== src/Server/Command.antt =====
-- server/cmd/clawgard-server/main.go. Whether the configuration loads, and how a server that runs ends,
-- are arguments; an error is printed in place of what `run` gives beside it.
use clawgard.Prelude.{
  ℕ, String, Bool, Option, none, some, List, [], ◌∷◌, ◌==◌, Comparable-String, if◌then◌else◌,
}
use clawgard.Exec.{Result, ok, err, Exec, pure, leave, guard, ◌>>=◌, ◌>>◌}
use clawgard.Store.Migrate.{MigrateError, Schema, MigrationFs, migrate}
use clawgard.Config.{Config}
use clawgard.Server.{StartError, short_secret, Surroundings, new_server}

pub data RunError : Type 0 where
  load_failed open_failed serve_failed : RunError
  start_failed : StartError → RunError
  migrate_failed : MigrateError → RunError
  unknown_subcommand : String → RunError

pub data Output : Type 0 where
  usage shut_down migrations_applied version : Output

abbrev Command : Type 0 → Type 0
Command A = Exec RunError Schema A

abbrev or_failed :
    {E A : Type 0} → (E → RunError) → Result E A × Schema → Result RunError A × Schema
or_failed f (ok a, s) = (ok a, s)
or_failed f (err e, s) = (err (f e), s)

abbrev loaded : Option Config → Command Config
loaded none = leave load_failed
loaded (some cfg) = pure cfg

module _ (fs : MigrationFs) (env : Surroundings) (config : Option Config) (serves : Bool) where
  unfoldable pub serve : Command Output
  serve = do
    cfg ← loaded config
    (λ s. or_failed start_failed (new_server fs env cfg s))
    guard serves serve_failed
    pure shut_down

  unfoldable pub migrate_only : Command Output
  migrate_only = do
    cfg ← loaded config
    guard env.opens open_failed
    (λ s. or_failed migrate_failed (migrate fs s))
    pure migrations_applied

  -- The arguments begin with the program's own name.
  unfoldable pub run : List String → Command Output
  unfolding serve migrate_only
  run [] = pure usage
  run (program ∷ []) = pure usage
  run (program ∷ cmd ∷ rest) =
      if cmd == "serve"
      then serve
      else if cmd == "migrate"
      then migrate_only
      else if cmd == "version"
      then pure version
      else leave (unknown_subcommand cmd)

-- The exit status, which is Go's own after a panic, and what is printed.
abbrev pub exited : Result RunError Output × Schema → ℕ × Option Output
exited (err (start_failed short_secret), s) = (2, none)
exited (err e, s) = (1, none)
exited (ok out, s) = (0, some out)
