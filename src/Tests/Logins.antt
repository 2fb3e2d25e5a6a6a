-- ===== src/Tests/Logins.antt =====
-- Examples for sessions, admins and the browser login.
use clawgard.Store.Db.{DeviceCode, no_rows}
use clawgard.Api.Http.{respond, token}
use clawgard.Api.World.{World, serve}
use clawgard.Api.Device.{handle_device_token, unknown_code}
use clawgard.Api.Device.Redeemed.{handle_device_token-once}
use clawgard.Tests.Fixtures.{world, db}
use clawgard.Prelude.{◌+◌}
use clawgard.Prelude.{
  ℕ, ◌*◌, ◌≡◌, ◌⊎◌, refl, String, Option, none, some, List, [], ◌∷◌, arith, ◌==◌, Comparable-ℕ,
  Comparable-String, if◌then◌else◌, strip_prefix, false,
}
use clawgard.Exec.{ok}
use clawgard.Api.Session.{Codec, issued, dot, sign, verify, last_dot, opened}
use clawgard.Api.Session.Signed.{Signed, sign-verify, verify-Signed}
use clawgard.Api.Middleware.{admin_middleware, by_key_or_token, dev_admin}
use clawgard.Api.Middleware.Admins.{BySession, ByDevKey, admin_middleware_lem}
use clawgard.Api.AuthCallback.{
  MemoryStateStore, new_memory_state_store, callback, start_flow, redirects, fails, exchange_code,
  minute, extract_email_claim, split_dots, local_redirect,
}
use clawgard.Api.AuthCallback.States.{callback_once}
use clawgard.Api.AuthCallback.Flow.{AuthConfig, Provider, posted, login, exchange_form}
use clawgard.Api.AuthCallback.Logins.{login-callback}

abbrev second : ℕ
second = 1_000_000_000

-- A codec that knows one payload, and a MAC of one byte.
abbrev codec : Codec
codec = record {
  encode = λ p. b'p' ∷ [];
  decode = λ t. some (issued "ana@x.org" (60 * second) 0);
  mac = λ t. b'm' ∷ [];
}

-- Signed for a minute, and read ten seconds later.
sign-verify_example :
    verify codec (sign codec "ana@x.org" (60 * second) 0) (10 * second) ≡ ok "ana@x.org"
sign-verify_example =
    sign-verify codec "ana@x.org" (60 * second) 0 (10 * second)
      (record { reads_back = refl; not_empty = λ e. cc; no_dot = ((λ e. omega arith), tt) })

verify-Signed_example : Signed codec (b'p' ∷ dot ∷ b'm' ∷ []) 0 "ana@x.org"
unfolding verify last_dot opened
verify-Signed_example = verify-Signed codec (b'p' ∷ dot ∷ b'm' ∷ []) 0 "ana@x.org" refl

admin_middleware_lem_example :
    BySession (some (ok "eve@x.org")) ("ada@x.org" ∷ []) dev_admin
    ⊎ ByDevKey "k" "Bearer k" dev_admin
unfolding admin_middleware by_key_or_token
admin_middleware_lem_example =
    admin_middleware_lem none "k" (some (ok "eve@x.org")) ("ada@x.org" ∷ []) "Bearer k" dev_admin
      refl

abbrev idp : String → String → Option (List ℕ)
idp code verifier = if verifier == "v" then some (b'h' ∷ b'.' ∷ b'p' ∷ b'.' ∷ b's' ∷ []) else none

abbrev payload : List ℕ → Option String
payload p = some "ana@x.org"

abbrev flow : MemoryStateStore
flow = start_flow "/threads" "v" "s" 5 new_memory_state_store

callback_once_example :
    (callback idp payload "s" "c2" 7 (callback idp payload "s" "c1" 6 flow).1).0 ≡ fails 400
callback_once_example = callback_once idp payload "s" "c1" "c2" 6 7 flow (λ e. cc)

abbrev cfg : AuthConfig
cfg = record {
  idp_auth_url = "https://idp/authorize";
  idp_token_url = "https://idp/token";
  client_id = "clawgard";
  client_secret = "hush";
  redirect_url = "https://board/callback";
  scopes = "email" ∷ [];
  session_ttl = 8;
  dev = false;
}

abbrev provider : Provider
provider url form =
    if url == "https://idp/token"
    then some (200, some (b'h' ∷ b'.' ∷ b'p' ∷ b'.' ∷ b's' ∷ []))
    else none

login-callback_example :
    (callback
      (posted provider cfg)
      payload
      "s"
      "c1"
      minute
      (login (λ v. v) cfg "/threads" "v" "s" 5 new_memory_state_store).1).0
    ≡ redirects "/threads" (some "ana@x.org")
unfolding exchange_code extract_email_claim split_dots local_redirect strip_prefix exchange_form
login-callback_example =
    login-callback (λ v. v) cfg provider payload "s" "c1" "v" "/threads" 5 minute
      new_memory_state_store (λ e. cc) (λ e. cc)

abbrev approved : DeviceCode
approved = record {
  device_code = "dc";
  user_code = b'X' ∷ [];
  expires_at = 600 * second;
  interval_seconds = 5;
  approved_email = some "ana@x.org";
}

abbrev waiting : World
waiting = record world { db = record db { codes = approved ∷ [] } }

handle_device_token-once_example :
    ((serve (handle_device_token "t1" (some "dc")) waiting).0
      ≡ respond 200 (token "t1" (100 + 8 * 3600 * second) "ana@x.org"))
    × (serve
          (handle_device_token "t2" (some "dc"))
          (serve (handle_device_token "t1" (some "dc")) waiting).1
        ≡ (unknown_code no_rows, (serve (handle_device_token "t1" (some "dc")) waiting).1))
handle_device_token-once_example =
    handle_device_token-once "t1" "t2" "dc" "ana@x.org" approved waiting refl (λ e. cc) refl refl
      (omega arith)
