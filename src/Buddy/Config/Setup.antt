-- ===== src/Buddy/Config/Setup.antt =====
-- What the setup of buddy-cli/internal/cli/setup.go writes and buddy-cli/internal/config/config.go
-- reads back.
use clawgard.Prelude.{
  ◌≡◌, ◌≢◌, refl, ap, subst, ◌∙◌, String, some, [], arith, eq_iff, Comparable-String,
}
use clawgard.Exec.{Result, ok}
use clawgard.Assoc.{Assoc, lookup, put, lookup-put}
use clawgard.Buddy.Config.{
  Env, LoadOptions, ConfigFile, absent, unreadable, profiles, ConfigError, or_else, relay_in,
  relay_of, load, run_setup, with_overrides, profile_of,
}

relay_in-found :
    (profile url : String) (ps : Assoc String String)
    → lookup profile ps ≡ some url
    → relay_in profile ps ≡ ok url
relay_in-found profile url ps h = rw (h, relay_in) refl

relay_in-put :
    (profile url : String) (ps : Assoc String String)
    → profile ≢ ""
    → relay_in profile (put (or_else profile "default") url ps) ≡ ok url
relay_in-put profile url ps ne =
    relay_in-found profile url (put (or_else profile "default") url ps) (
      lookup-put (or_else profile "default") profile url ps
      ∙ ground (arith, eq_iff profile "", eq_iff profile profile))

read_back :
    (profile url : String) (file' : ConfigFile) (ps : Assoc String String)
    → ◌≡◌ {A = Result ConfigError ConfigFile} (ok (profiles ps)) (ok file')
    → relay_in profile ps ≡ ok url
    → relay_of profile file' ≡ ok url
read_back profile url file' ps h there =
    let same : profiles ps ≡ file' = ground arith in
    subst (λ (f : ConfigFile). relay_of profile f ≡ ok url) same there

written-relay :
    (profile url : String) (file file' : ConfigFile)
    → profile ≢ ""
    → run_setup profile url file ≡ ok file'
    → relay_of profile file' ≡ ok url
unfolding run_setup
written-relay profile url absent file' ne h =
    read_back profile url file' (put (or_else profile "default") url []) h
      (relay_in-put profile url [] ne)
written-relay profile url unreadable file' ne h = cc
written-relay profile url (profiles ps) file' ne h =
    read_back profile url file' (put (or_else profile "default") url ps) h
      (relay_in-put profile url ps ne)

-- A setup that succeeds, for a named profile and a relay URL, is read back by a load of that profile
-- when neither a flag nor the environment overrides it, whatever other profiles the file had.
pub run_setup-load :
    (profile url : String) (env : Env) (file file' : ConfigFile)
    → profile ≢ ""
    → url ≢ ""
    → env "CLAWGARD_URL" ≡ ""
    → run_setup profile url file ≡ ok file'
    → load (record { profile = profile; relay_url_flag = "" }) env file'
      ≡ ok (record { profile_name = profile; relay_url = url })
unfolding load
run_setup-load profile url env file file' named given unset h =
    ap (with_overrides opts env) (
      ap (λ (p : String). relay_of p file') same_profile
      ∙ written-relay profile url file file' named h)
    ∙ ground (arith, eq_iff profile "", eq_iff url "", eq_iff (env "CLAWGARD_URL") "")
  where
    opts : LoadOptions
    opts = record { profile = profile; relay_url_flag = "" }

    same_profile : profile_of opts env ≡ profile
    same_profile = ground (arith, eq_iff profile "")
