-- ===== src/Buddy/Listen.antt =====
-- The commands of buddy-cli/internal/cli: `RunSetup` of setup.go and `listen` of listen.go, up to the
-- dial of client.go. Texts that are joined are lists of code points.
pub mod Setup
use clawgard.Prelude.{
  ℕ, String, Bool, true, false, Option, none, some, List, [], ◌∷◌, ◌++◌, ◌==◌, Comparable-ℕ,
  Comparable-String, if◌then◌else◌, codes,
}
use clawgard.Exec.{Result, ok, err}
use clawgard.Buddy.Config.{Config, LoadOptions, Env, ConfigFile, ConfigError, load, run_setup}
use clawgard.Buddy.KeyFile.{Files, FileError, mkdir_failed, write_failed, Disk, write, read}

-- The files of a user: the configuration, and the others by their paths.
pub record Home : Type 0 where
  pub config : ConfigFile
  pub files : Files

pub record SetupInput : Type 0 where
  pub relay_url : String
  pub api_key : List ℕ
  pub profile : String
  pub api_key_path : String

pub data CliError : Type 0 where
  config_error : ConfigError → CliError
  file_error : FileError → CliError
  on_question_required : CliError

abbrev pub key_written :
    Home → Result FileError (Unit {0}) × Files → Result CliError (Unit {0}) × Home
key_written h (ok u, fs) = (ok tt, record h { files = fs })
key_written h (err e, fs) = (err (file_error e), record h { files = fs })

abbrev pub then_key :
    Disk
    → Disk
    → SetupInput
    → Home
    → Result ConfigError ConfigFile
    → Result CliError (Unit {0}) × Home
then_key config_disk key_disk inp h (err e) = (err (config_error e), h)
then_key config_disk key_disk inp h (ok file) =
    if config_disk.writes
    then key_written (record h { config = file })
        (write key_disk inp.api_key_path inp.api_key h.files)
    else (err (file_error write_failed), h)

-- The configuration first, and then the key, each in its directory.
unfoldable pub setup : Disk → Disk → SetupInput → Home → Result CliError (Unit {0}) × Home
setup config_disk key_disk inp h =
    if config_disk.makes_dir
    then then_key config_disk key_disk inp h (run_setup inp.profile inp.relay_url h.config)
    else (err (file_error mkdir_failed), h)

pub record ListenFlags : Type 0 where
  pub on_question : String
  pub profile : String
  pub relay_url : String
  -- in nanoseconds, 120 s unless the flag is given
  pub question_timeout : ℕ
  pub dry_run : Bool

-- What the supervisor is started with.
pub record Started : Type 0 where
  pub relay_url : List ℕ
  pub api_key : List ℕ
  pub command : String
  pub timeout : ℕ

abbrev pub connect_path : List ℕ
connect_path = codes "/v1/buddy/connect"

abbrev pub with_key :
    ListenFlags → Config → Result FileError (List ℕ) → Result CliError (Option Started)
with_key f cfg (err e) = err (file_error e)
with_key f cfg (ok key) = ok (
    some (record {
      relay_url = codes cfg.relay_url ++ connect_path;
      api_key = key;
      command = f.on_question;
      timeout = f.question_timeout;
    }))

abbrev pub with_config :
    ListenFlags → String → Files → Result ConfigError Config → Result CliError (Option Started)
with_config f key_path fs (err e) = err (config_error e)
with_config f key_path fs (ok cfg) = with_key f cfg (read key_path fs)

unfoldable pub run_listen : ListenFlags → Env → String → Home → Result CliError (Option Started)
run_listen f env key_path h =
    with_config f key_path h.files
      (load (record { profile = f.profile; relay_url_flag = f.relay_url }) env h.config)

-- The `listen` command; a dry run ends before it starts anything.
unfoldable pub listen : ListenFlags → Env → String → Home → Result CliError (Option Started)
unfolding run_listen
listen f env key_path h =
    if f.on_question == ""
    then err on_question_required
    else if f.dry_run
    then ok none
    else run_listen f env key_path h

abbrev pub strip_codes : List ℕ → List ℕ → Option (List ℕ)
strip_codes [] cs = some cs
strip_codes (p ∷ ps) [] = none
strip_codes (p ∷ ps) (c ∷ cs) = if p == c then strip_codes ps cs else none

abbrev pub upgraded : List ℕ → Option (List ℕ) → Option (List ℕ) → List ℕ
upgraded url (some rest) plain = codes "wss://" ++ rest
upgraded url none (some rest) = codes "ws://" ++ rest
upgraded url none none = url

-- `Client.Dial`: the address that is dialled, and the Authorization header.
unfoldable pub dial : Started → List ℕ × List ℕ
dial s = (
  upgraded s.relay_url (strip_codes (codes "https://") s.relay_url)
      (strip_codes (codes "http://") s.relay_url),
  codes "Bearer " ++ s.api_key,
)
