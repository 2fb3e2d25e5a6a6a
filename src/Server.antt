-- ===== src/Server.antt =====
-- server/internal/server/server.go: what `New` sets up from a configuration. A router of
-- github.com/go-chi/chi is the list of what is registered with it, and the middlewares of its group.
pub mod Routes
pub mod Starting
pub mod Spa
pub mod Command
use clawgard.Prelude.{
  ℕ, ℤ, String, Bool, true, false, not, ◌&&◌, Option, none, some, List, [], ◌∷◌, ◌++◌, map, ◌==◌,
  Comparable-String, if◌then◌else◌, leb, byte_length,
}
use clawgard.Exec.{Result, ok, err, Exec, pure, leave, guard, ◌>>=◌, ◌>>◌}
use clawgard.Store.Migrate.{MigrateError, Schema, MigrationFs, migrate}
use clawgard.Config.{Config}

pub data Level : Type 0 where
  debug info warn error : Level

unfoldable pub parse_level : String → Level
parse_level s =
    if s == "debug"
    then debug
    else if s == "warn"
    then warn
    else if s == "error"
    then error
    else info

pub data Method : Type 0 where
  get post patch delete : Method

-- The handlers of server/internal/api that are registered.
pub data Target : Type 0 where
  live ready : Target
  device_initiate device_token buddy_connect : Target
  list_buddies open_thread get_thread post_clarification close_thread : Target
  admin_list_buddies admin_create_buddy admin_update_buddy admin_rotate_buddy_key : Target
  admin_delete_buddy admin_list_threads admin_get_thread : Target
  me logout mock_login login callback : Target

-- The middlewares that a request passes first.
pub data Guard : Type 0 where
  request_id real_ip recoverer : Guard
  hatchling_oidc admin_with_session requires_admin : Guard

pub record Route : Type 0 where
  pub method : Method
  pub pattern : String
  pub guards : List Guard
  pub target : Target

abbrev route : Method → String → Target → Route
route m p t = record { method = m; pattern = p; guards = []; target = t }

abbrev pub mount_device_code : List Route
mount_device_code =
    route post "/v1/auth/oidc/device" device_initiate
    ∷ route post "/v1/auth/oidc/token" device_token
    ∷ []

abbrev pub mount_buddy_ws : List Route
mount_buddy_ws = route get "/v1/buddy/connect" buddy_connect ∷ []

abbrev pub mount_hatchling : List Route
mount_hatchling =
    route get "/v1/buddies" list_buddies
    ∷ route post "/v1/threads" open_thread
    ∷ route get "/v1/threads/{id}" get_thread
    ∷ route post "/v1/threads/{id}/messages" post_clarification
    ∷ route post "/v1/threads/{id}/close" close_thread
    ∷ []

-- `r.Use(g)` in a group.
abbrev pub use_guard : Guard → Route → Route
use_guard g r = record r { guards = g ∷ r.guards }

abbrev pub mount_admin : List Route
mount_admin = map (use_guard requires_admin) (
    route get "/v1/admin/buddies" admin_list_buddies
    ∷ route post "/v1/admin/buddies" admin_create_buddy
    ∷ route patch "/v1/admin/buddies/{id}" admin_update_buddy
    ∷ route post "/v1/admin/buddies/{id}/rotate-key" admin_rotate_buddy_key
    ∷ route delete "/v1/admin/buddies/{id}" admin_delete_buddy
    ∷ route get "/v1/admin/threads" admin_list_threads
    ∷ route get "/v1/admin/threads/{id}" admin_get_thread
    ∷ [])

-- `sessionSigner != nil`
abbrev pub has_signer : Config → Bool
has_signer cfg = not (cfg.session_secret == "")

-- `cfg.IdPMode == "mock" && cfg.DevMode`
abbrev pub is_mock : Config → Bool
is_mock cfg = cfg.idp_mode == "mock" && cfg.dev_mode

-- `cfg.OIDCClientID != "" && cfg.OIDCTokenURL != ""`
abbrev pub has_client : Config → Bool
has_client cfg = not (cfg.oidc_client_id == "") && not (cfg.oidc_token_url == "")

abbrev pub login_routes : Bool → Bool → List Route
login_routes mock client =
    if mock
    then route get "/auth/login" mock_login ∷ []
    else if client
    then route get "/auth/login" login ∷ route get "/auth/callback" callback ∷ []
    else []

abbrev pub dashboard_routes : Bool → List Route → List Route
dashboard_routes signer logins =
    if signer then route get "/v1/me" me ∷ route post "/auth/logout" logout ∷ logins else []

abbrev pub api_routes : List Route
api_routes =
    (route get "/healthz" live ∷ route get "/readyz" ready ∷ [])
    ++ mount_device_code
    ++ mount_buddy_ws
    ++ map (use_guard hatchling_oidc) mount_hatchling
    ++ map (use_guard admin_with_session) mount_admin

-- `r.Use` of the three middlewares of the whole router.
abbrev pub for_all : Route → Route
for_all r = record r { guards = request_id ∷ real_ip ∷ recoverer ∷ r.guards }

unfoldable pub routes : Config → List Route
routes cfg =
    map for_all (
      api_routes ++ dashboard_routes (has_signer cfg) (login_routes (is_mock cfg) (has_client cfg)))

pub record Server : Type 0 where
  pub log_level : Level
  pub verifies_tokens : Bool
  pub sweeper_interval_seconds : ℕ
  pub thread_idle_seconds : ℤ
  pub admin_emails : List String
  pub routes : List Route
  -- the embedded pages, for paths and methods that no route has
  pub serves_spa : Bool

pub data StartError : Type 0 where
  open_store listen : StartError
  -- the panic of `NewSessionSigner`, which nothing recovers
  short_secret : StartError
  migrating : MigrateError → StartError

-- Whether the pool opens, the OIDC provider is found, and the address can be listened on.
pub record Surroundings : Type 0 where
  pub opens : Bool
  pub finds_provider : Bool
  pub listens : Bool

abbrev pub or_start_error :
    {A : Type 0} → Result MigrateError A × Schema → Result StartError A × Schema
or_start_error (ok a, s) = (ok a, s)
or_start_error (err e, s) = (err (migrating e), s)

abbrev pub built : Surroundings → Config → Server
built env cfg = record {
  log_level = parse_level cfg.log_level;
  verifies_tokens = not (cfg.oidc_issuer == "") && env.finds_provider;
  sweeper_interval_seconds = cfg.sweeper_interval_seconds;
  thread_idle_seconds = cfg.thread_idle_seconds;
  admin_emails = cfg.admin_emails;
  routes = routes cfg;
  serves_spa = has_signer cfg;
}

-- `NewSessionSigner`: `len(secret) < 32` panics.
unfoldable pub new_session_signer : String → Exec StartError Schema (Unit {0})
new_session_signer secret = guard (leb 32 (byte_length secret)) short_secret

unfoldable pub new_server : MigrationFs → Surroundings → Config → Exec StartError Schema Server
unfolding routes parse_level new_session_signer
new_server fs env cfg = do
  guard env.opens open_store
  λ s. or_start_error (migrate fs s)
  if has_signer cfg then new_session_signer cfg.session_secret else pure tt
  guard env.listens listen
  pure (built env cfg)
