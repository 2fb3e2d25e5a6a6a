-- ===== src/Config.antt =====
-- server/internal/config/config.go. The environment is a function, "" for an unset variable;
-- a file is absent (no path), unreadable or not JSON, or a map of profiles.
pub mod Overlay
use clawgard.Prelude.{
  ℕ, ℤ, pos, negsuc, String, Bool, true, false, not, ◌||◌, Option, none, some, List, [], ◌∷◌, ◌++◌,
  ltb, ◌==◌, Comparable-ℕ, Comparable-String, if◌then◌else◌,
}
use Prim.Native.String.{◌++◌ as ◌<>◌}
use clawgard.Exec.{Result, ok, err}
use clawgard.Assoc.{Assoc, lookup}

pub record Config : Type 0 where
  pub http_addr : String
  pub database_url : String
  pub oidc_issuer : String
  pub oidc_audience : String
  pub thread_idle_seconds : ℤ
  pub sweeper_interval_seconds : ℕ
  pub dev_mode : Bool
  pub dev_admin_key : String
  pub log_level : String
  pub oidc_auth_url : String
  pub oidc_token_url : String
  pub oidc_client_id : String
  pub oidc_client_secret : String
  pub oidc_redirect_url : String
  pub session_secret : String
  pub admin_emails : List String
  pub public_url : String
  pub idp_mode : String

pub record Section : Type 0 where
  pub http_addr : String
  pub database_url : String
  pub oidc_issuer : String
  pub oidc_audience : String
  pub thread_idle_seconds : ℤ
  pub log_level : String

abbrev pub defaults : Config
defaults = record {
  http_addr = ":8080";
  database_url = "";
  oidc_issuer = "";
  oidc_audience = "";
  thread_idle_seconds = pos 900;
  sweeper_interval_seconds = 15;
  dev_mode = false;
  dev_admin_key = "";
  log_level = "info";
  oidc_auth_url = "";
  oidc_token_url = "";
  oidc_client_id = "";
  oidc_client_secret = "";
  oidc_redirect_url = "";
  session_secret = "";
  admin_emails = [];
  public_url = "";
  idp_mode = "";
}

pub data ConfigFile : Type 0 where
  no_path unreadable : ConfigFile
  parsed : Assoc String Section → ConfigFile

pub data ConfigError : Type 0 where
  bad_file profile_not_found : ConfigError

-- The environment, `strconv.Atoi`, and `strings.Split(v, ",")` with `strings.TrimSpace` on each part.
pub record Host : Type 0 where
  pub env : String → String
  pub atoi : String → Option ℤ
  pub split_trim : String → List String

-- `if v := …; v != "" { … = v }`
abbrev pub over : String → String → String
over v old = if v == "" then old else v

abbrev pub is_positive : ℤ → Bool
is_positive (pos n) = ltb 0 n
is_positive (negsuc n) = false

abbrev pub with_section : Section → Config → Config
with_section s c = record c {
  http_addr = over s.http_addr c.http_addr;
  database_url = s.database_url;
  oidc_issuer = s.oidc_issuer;
  oidc_audience = s.oidc_audience;
  thread_idle_seconds =
      if is_positive s.thread_idle_seconds then s.thread_idle_seconds else c.thread_idle_seconds;
  log_level = over s.log_level c.log_level;
}

unfoldable pub read_file : Host → ConfigFile → Result ConfigError Config
read_file h no_path = ok defaults
read_file h unreadable = err bad_file
read_file h (parsed sections) = elim (lookup (over (h.env "CLAWGARD_PROFILE") "default") sections) [
  | none ↦ err profile_not_found
  | some s ↦ ok (with_section s defaults)
]

abbrev pub port_addr : String → String → String
port_addr port old = if port == "" then old else ◌<>◌ ":" port

abbrev pub idle_of : Host → String → ℤ → ℤ
idle_of h v old = elim (h.atoi v) [ none ↦ old | some n ↦ n ]

abbrev pub keep_texts : List String → List String
keep_texts [] = []
keep_texts (s ∷ ss) = if s == "" then keep_texts ss else s ∷ keep_texts ss

-- The variables in the order of the code: a later one overrides an earlier one of the same field.
unfoldable pub with_env : Host → Config → Config
with_env h c = record c {
  http_addr = port_addr (env "CLAWGARD_PORT") (over (env "CLAWGARD_HTTP_ADDR") c.http_addr);
  database_url = over (env "CLAWGARD_DB_URL") (over (env "CLAWGARD_DATABASE_URL") c.database_url);
  oidc_issuer = over (env "CLAWGARD_OIDC_ISSUER") c.oidc_issuer;
  oidc_audience = over (env "CLAWGARD_OIDC_AUDIENCE") c.oidc_audience;
  log_level = over (env "CLAWGARD_LOG_LEVEL") c.log_level;
  thread_idle_seconds =
      let v = env "CLAWGARD_THREAD_IDLE_SECONDS" in
      if v == "" then c.thread_idle_seconds else idle_of h v c.thread_idle_seconds;
  dev_mode = env "CLAWGARD_DEV_MODE" == "true" || env "CLAWGARD_ENV" == "dev" || c.dev_mode;
  dev_admin_key =
      if env "CLAWGARD_DEV_MODE" == "true" then env "CLAWGARD_ADMIN_KEY" else c.dev_admin_key;
  oidc_auth_url = over (env "CLAWGARD_OIDC_AUTH_URL") c.oidc_auth_url;
  oidc_token_url = over (env "CLAWGARD_OIDC_TOKEN_URL") c.oidc_token_url;
  oidc_client_id = over (env "CLAWGARD_OIDC_CLIENT_ID") c.oidc_client_id;
  oidc_client_secret = over (env "CLAWGARD_OIDC_CLIENT_SECRET") c.oidc_client_secret;
  oidc_redirect_url = over (env "CLAWGARD_OIDC_REDIRECT_URL") c.oidc_redirect_url;
  session_secret = over (env "CLAWGARD_SESSION_SECRET") c.session_secret;
  admin_emails =
      let v = env "CLAWGARD_ADMIN_EMAILS" in
      if v == "" then c.admin_emails else c.admin_emails ++ keep_texts (h.split_trim v);
  public_url = over (env "CLAWGARD_PUBLIC_URL") c.public_url;
  idp_mode = over (env "CLAWGARD_IDP_MODE") c.idp_mode;
}
  where
    open h use {env}

abbrev pub overlaid : Host → Result ConfigError Config → Result ConfigError Config
overlaid h (err e) = err e
overlaid h (ok c) = ok (with_env h c)

unfoldable pub load : Host → ConfigFile → Result ConfigError Config
unfolding read_file with_env
load h file = overlaid h (read_file h file)
