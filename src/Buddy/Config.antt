-- ===== src/Buddy/Config.antt =====
-- buddy-cli/internal/config/config.go, and the profile that setup.go writes. The environment is a
-- function; a configuration file is absent, unreadable, or a map of profiles to relay URLs.
pub mod Setup
use clawgard.Prelude.{String, none, some, [], ◌∷◌, ◌==◌, Comparable-String, if◌then◌else◌}
use clawgard.Exec.{Result, ok, err}
use clawgard.Assoc.{Assoc, lookup, put}

pub record Config : Type 0 where
  pub profile_name : String
  pub relay_url : String

pub record LoadOptions : Type 0 where
  pub profile : String
  pub relay_url_flag : String

abbrev pub Env : Type 0
Env = String → String

pub data ConfigFile : Type 0 where
  absent unreadable : ConfigFile
  profiles : Assoc String String → ConfigFile

pub data ConfigError : Type 0 where
  bad_file profile_not_found no_relay_url : ConfigError

-- The first text that is not empty.
abbrev pub or_else : String → String → String
or_else s t = if s == "" then t else s

abbrev pub profile_of : LoadOptions → Env → String
profile_of opts env = or_else (or_else opts.profile (env "CLAWGARD_PROFILE")) "default"

-- The profile's relay URL; a file with profiles must have the one asked for.
abbrev pub relay_in : String → Assoc String String → Result ConfigError String
relay_in profile ps = elim (lookup profile ps) [
  | some url ↦ ok url
  | none ↦ elim ps [ [] ↦ ok "" | p ∷ rest ↦ err profile_not_found ]
]

abbrev pub relay_of : String → ConfigFile → Result ConfigError String
relay_of profile absent = ok ""
relay_of profile unreadable = err bad_file
relay_of profile (profiles ps) = relay_in profile ps

abbrev pub with_overrides :
    LoadOptions → Env → Result ConfigError String → Result ConfigError Config
with_overrides opts env (err e) = err e
with_overrides opts env (ok relay) =
    let url = or_else opts.relay_url_flag (or_else (env "CLAWGARD_URL") relay) in
    if url == ""
    then err no_relay_url
    else ok (record { profile_name = profile_of opts env; relay_url = url })

unfoldable pub load : LoadOptions → Env → ConfigFile → Result ConfigError Config
load opts env file = with_overrides opts env (relay_of (profile_of opts env) file)

-- `RunSetup`: the file that is written.
unfoldable pub run_setup : String → String → ConfigFile → Result ConfigError ConfigFile
run_setup profile url absent = ok (profiles (put (or_else profile "default") url []))
run_setup profile url unreadable = err bad_file
run_setup profile url (profiles ps) = ok (profiles (put (or_else profile "default") url ps))
