-- ===== src/Api/Middleware.antt =====
-- server/internal/api/middleware.go, and the claims that server/internal/auth/oidc.go takes from a
-- token. A middleware gives the identity of the request's context, or a refusal.
pub mod Admins
use Prim.Native.String.{◌++◌ as ◌<>◌}
use clawgard.Prelude.{
  ℕ, String, Bool, true, false, not, ◌&&◌, ◌||◌, Option, none, some, List, [], ◌∷◌, ◌==◌,
  Comparable-String, if◌then◌else◌, exists, strip_prefix,
}
use clawgard.Exec.{Result, ok, err}
use clawgard.Store.Buddies.{any_of}
use clawgard.Api.Http.{Identity, Response, write_error, says}
use clawgard.Api.Session.{SessionError}

-- The claims of a token that github.com/golang-jwt/jwt accepted.
pub record RawClaims : Type 0 where
  pub email : String
  pub subject : String
  pub groups : List String

pub record OidcClaims : Type 0 where
  pub email : String
  pub subject : String
  pub groups : List String

-- `jwt.ParseWithClaims` with the verifier's keys, issuer and audience.
abbrev pub Jwt : Type 0
Jwt = String → Option RawClaims

unfoldable pub verify_oidc : Jwt → String → Option OidcClaims
verify_oidc jwt raw = elim (jwt raw) [
  | none ↦ none
  | some c ↦ some (record {
    email = if c.email == "" then c.subject else c.email;
    subject = c.subject;
    groups = c.groups;
  })
]

abbrev pub Checked : Type 0
Checked = Result Response Identity

abbrev pub unauthorized : String → Response
unauthorized msg = write_error 401 "unauthorized" (says msg)

abbrev pub or_invalid : (OidcClaims → Checked) → Option OidcClaims → Checked
or_invalid k none = err (unauthorized "invalid token")
or_invalid k (some c) = k c

abbrev pub with_bearer : String → String → (String → Checked) → Checked
with_bearer msg authz k = elim (strip_prefix "Bearer " authz) [
  | none ↦ err (unauthorized msg)
  | some raw ↦ k raw
]

abbrev pub hatchling_identity : OidcClaims → Identity
hatchling_identity c = record { email = c.email; groups = c.groups; admin = false; buddy_id = "" }

unfoldable pub hatchling_oidc : Option Jwt → String → Checked
unfolding verify_oidc
hatchling_oidc none authz = err (unauthorized "oidc not configured")
hatchling_oidc (some jwt) authz =
    with_bearer "missing bearer token" authz
      (λ raw. or_invalid (λ c. ok (hatchling_identity c)) (verify_oidc jwt raw))

-- The set of groups that the caller has is searched for each wanted one.
unfoldable pub has_any_group : List String → List String → Bool
has_any_group have [] = false
has_any_group have (g ∷ want) = any_of g have || has_any_group have want

abbrev pub session_admin : String → Identity
session_admin email = record { email = email; groups = []; admin = true; buddy_id = "" }

abbrev pub dev_admin : Identity
dev_admin = record { email = "admin@clawgard.test"; groups = []; admin = true; buddy_id = "" }

abbrev pub oidc_admin : OidcClaims → Identity
oidc_admin c = record { email = c.email; groups = c.groups; admin = true; buddy_id = "" }

unfoldable pub by_token : Option Jwt → List String → String → Checked
unfolding verify_oidc has_any_group
by_token none groups authz = err (unauthorized "admin auth required")
by_token (some jwt) groups authz = with_bearer "admin auth required" authz λ raw.
    or_invalid
      (λ c.
        if has_any_group c.groups groups
        then ok (oidc_admin c)
        else err (write_error 403 "forbidden" (says "not an admin")))
      (verify_oidc jwt raw)

unfoldable pub by_key_or_token : Option Jwt → String → List String → String → Checked
unfolding by_token
by_key_or_token jwt dev_key groups authz =
    if not (dev_key == "") && authz == ◌<>◌ "Bearer " dev_key
    then ok dev_admin
    else by_token jwt groups authz

-- The session path is open when there is a signer and an admin email; `session` is what the
-- signer read, and `none` stands for no signer.
unfoldable pub admin_middleware :
    Option Jwt
    → String
    → List String
    → Option (Result SessionError String)
    → List String
    → String
    → Checked
unfolding by_key_or_token
admin_middleware jwt dev_key groups (some (ok email)) admin_emails authz =
    if any_of email admin_emails
    then ok (session_admin email)
    else by_key_or_token jwt dev_key groups authz
admin_middleware jwt dev_key groups (some (err e)) admin_emails authz =
    by_key_or_token jwt dev_key groups authz
admin_middleware jwt dev_key groups none admin_emails authz =
    by_key_or_token jwt dev_key groups authz
