-- ===== src/Config/Overlay.antt =====
-- Where a configuration of server/internal/config/config.go gets its development key.
use clawgard.Prelude.{
  ◌≡◌, ◌≢◌, refl, sym, subst, true, Option, none, some, arith, eq_iff, Comparable-String,
}
use clawgard.Exec.{Result, ok, err}
use clawgard.Assoc.{lookup}
use clawgard.Config.{
  Config, ConfigError, profile_not_found, Section, Host, ConfigFile, no_path, unreadable, parsed,
  defaults, over, with_section, read_file, with_env, overlaid, load,
}

or_no_config : Result ConfigError Config → Config
or_no_config (ok c) = c
or_no_config (err e) = defaults

file-no_key :
    (h : Host) (file : ConfigFile) (c : Config) → read_file h file ≡ ok c → c.dev_admin_key ≡ ""
unfolding read_file
file-no_key h no_path c e = ground arith
file-no_key h unreadable c e = cc
file-no_key h (parsed sections) c e =
    by_section (lookup (over (h.env "CLAWGARD_PROFILE") "default") sections) e
  where
    by_section :
        (o : Option Section)
        → (elim o [ none ↦ err profile_not_found | some s ↦ ok (with_section s defaults) ]) ≡ ok c
        → c.dev_admin_key ≡ ""
    by_section none e = cc
    by_section (some s) e = ground arith

-- What holds of a configuration with a key.
abbrev pub DevKey : Host → Config → Type 0
DevKey h c =
    (h.env "CLAWGARD_DEV_MODE" ≡ "true")
    × (c.dev_mode ≡ true)
    × (c.dev_admin_key ≡ h.env "CLAWGARD_ADMIN_KEY")

with_env-DevKey :
    (h : Host) (c : Config)
    → c.dev_admin_key ≡ ""
    → (with_env h c).dev_admin_key ≢ ""
    → DevKey h (with_env h c)
unfolding with_env
with_env-DevKey h c none_yet given = (
  ground (arith, eq_iff (h.env "CLAWGARD_DEV_MODE") "true"),
  ground (arith, eq_iff (h.env "CLAWGARD_DEV_MODE") "true"),
  ground (arith, eq_iff (h.env "CLAWGARD_DEV_MODE") "true"),
)

-- A configuration holds a development key only when the environment turns the development mode on,
-- whatever the file says; the mode is then on, and the key is the one of the environment.
pub load-DevKey :
    (h : Host) (file : ConfigFile) (c : Config)
    → load h file ≡ ok c
    → c.dev_admin_key ≢ ""
    → DevKey h c
unfolding load
load-DevKey h file c e given = by_file (read_file h file) (file-no_key h file) e
  where
    by_file :
        (r : Result ConfigError Config)
        → ((d : Config) → r ≡ ok d → d.dev_admin_key ≡ "")
        → overlaid h r ≡ ok c
        → DevKey h c
    by_file (err x) no_key e = cc
    by_file (ok d) no_key e =
        let same : with_env h d ≡ c = ground arith in
        subst (DevKey h) same (
          with_env-DevKey h d (no_key d refl)
            (subst (λ (x : Config). x.dev_admin_key ≢ "") (sym same) given))
