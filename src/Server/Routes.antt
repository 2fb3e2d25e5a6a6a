-- ===== src/Server/Routes.antt =====
-- Which handlers server/internal/server/server.go registers.
use clawgard.Prelude.{
  ◌≡◌, refl, Bool, true, false, not, ◌&&◌, List, [], ◌∷◌, ◌++◌, All, exists, arith, map, ◌==◌,
  Comparable-String,
}
use clawgard.Config.{Config}
use clawgard.Server.{
  Target, list_buddies, open_thread, get_thread, post_clarification, close_thread,
  admin_list_buddies, admin_create_buddy, admin_update_buddy, admin_rotate_buddy_key,
  admin_delete_buddy, admin_list_threads, admin_get_thread, mock_login, login, callback, Guard,
  for_all, request_id, real_ip, recoverer, hatchling_oidc, admin_with_session, requires_admin,
  Route, has_signer, is_mock, has_client, login_routes, dashboard_routes, api_routes, routes,
}

abbrev pub is_mock_login : Target → Bool
is_mock_login mock_login = true
is_mock_login _ = false

abbrev pub is_login : Target → Bool
is_login login = true
is_login _ = false

abbrev pub is_callback : Target → Bool
is_callback callback = true
is_callback _ = false

-- What a handler relies on having been checked, besides what every request passes.
abbrev pub needs : Target → List Guard
needs list_buddies = hatchling_oidc ∷ []
needs open_thread = hatchling_oidc ∷ []
needs get_thread = hatchling_oidc ∷ []
needs post_clarification = hatchling_oidc ∷ []
needs close_thread = hatchling_oidc ∷ []
needs admin_list_buddies = admin_with_session ∷ requires_admin ∷ []
needs admin_create_buddy = admin_with_session ∷ requires_admin ∷ []
needs admin_update_buddy = admin_with_session ∷ requires_admin ∷ []
needs admin_rotate_buddy_key = admin_with_session ∷ requires_admin ∷ []
needs admin_delete_buddy = admin_with_session ∷ requires_admin ∷ []
needs admin_list_threads = admin_with_session ∷ requires_admin ∷ []
needs admin_get_thread = admin_with_session ∷ requires_admin ∷ []
needs _ = []

abbrev pub Guarded : Route → Type 0
Guarded r = r.guards ≡ request_id ∷ real_ip ∷ recoverer ∷ needs r.target

abbrev pub registered : (Target → Bool) → List Route → Bool
registered p rs = exists (λ r. p r.target) rs

-- The routes, by whether there is a session signer, a mock provider, and a client of a real one.
pub record IsWiredFor (signer mock client : Bool) (rs : List Route) : Type 0 where
  pub mocked : registered is_mock_login rs ≡ (signer && mock)
  pub real : registered is_login rs ≡ (signer && (not mock && client))
  pub back : registered is_callback rs ≡ (signer && (not mock && client))
  pub guarded : All Guarded rs

wired :
    (signer mock client : Bool)
    → IsWiredFor signer mock client
        (map for_all (api_routes ++ dashboard_routes signer (login_routes mock client)))
wired false m c = record { mocked = refl; real = refl; back = refl; guarded = ground arith }
wired true true c = record { mocked = refl; real = refl; back = refl; guarded = ground arith }
wired true false true = record { mocked = refl; real = refl; back = refl; guarded = ground arith }
wired true false false = record { mocked = refl; real = refl; back = refl; guarded = ground arith }

pub routes-IsWiredFor :
    (cfg : Config)
    → IsWiredFor
        (not (cfg.session_secret == ""))
        (cfg.idp_mode == "mock" && cfg.dev_mode)
        (not (cfg.oidc_client_id == "") && not (cfg.oidc_token_url == ""))
        (routes cfg)
unfolding routes
routes-IsWiredFor cfg = wired (has_signer cfg) (is_mock cfg) (has_client cfg)
