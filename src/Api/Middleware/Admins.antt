-- ===== src/Api/Middleware/Admins.antt =====
-- Who the admin middleware of server/internal/api/middleware.go lets in.
use Prim.Native.String.{◌++◌ as ◌<>◌}
use clawgard.Prelude.{
  ◌≡◌, ◌≢◌, ◌⊎◌, inl, inr, String, true, not, ◌&&◌, Option, none, some, List, [], arith, eq_iff,
  ◌==◌, Comparable-String, strip_prefix, Bool-cases,
}
use clawgard.Exec.{Result, ok, err}
use clawgard.Store.Buddies.{any_of}
use clawgard.Api.Http.{Identity}
use clawgard.Api.Session.{SessionError}
use clawgard.Api.Middleware.{
  Jwt, OidcClaims, Checked, with_bearer, has_any_group, verify_oidc, session_admin, dev_admin,
  by_token, by_key_or_token, admin_middleware, unauthorized, or_invalid,
}

or_invalid-refuses :
    (k : OidcClaims → Checked) (o : Option OidcClaims) (id : Identity)
    → ((c : OidcClaims) → k c ≢ ok id)
    → or_invalid k o ≢ ok id
or_invalid-refuses k none id all h = cc
or_invalid-refuses k (some c) id all h = all c h

with_bearer-refuses :
    (msg authz : String) (k : String → Checked) (id : Identity)
    → ((raw : String) → k raw ≢ ok id)
    → with_bearer msg authz k ≢ ok id
with_bearer-refuses msg authz k id all h = by_header (strip_prefix "Bearer " authz) h
  where
    by_header :
        (o : Option String) → (elim o [ none ↦ err (unauthorized msg) | some raw ↦ k raw ]) ≢ ok id
    by_header none h = cc
    by_header (some raw) h = all raw h

-- With no admin groups, a token never makes an admin.
by_token-refuses :
    (jwt : Option Jwt) (authz : String) (id : Identity) → by_token jwt [] authz ≢ ok id
unfolding by_token has_any_group
by_token-refuses none authz id h = cc
by_token-refuses (some jwt) authz id h =
    with_bearer-refuses "admin auth required" authz _ id
      (λ raw. or_invalid-refuses _ (verify_oidc jwt raw) id (λ c e. cc)) h

-- How a caller can be let in: a session of an admin email, or the dev key.
abbrev pub BySession : Option (Result SessionError String) → List String → Identity → Type 0
BySession (some (ok email)) admin_emails id =
    (any_of email admin_emails ≡ true) × (id ≡ session_admin email)
BySession (some (err e)) admin_emails id = ⊥
BySession none admin_emails id = ⊥

abbrev pub ByDevKey : String → String → Identity → Type 0
ByDevKey dev_key authz id = (dev_key ≢ "") × (authz ≡ ◌<>◌ "Bearer " dev_key) × (id ≡ dev_admin)

by_key :
    (jwt : Option Jwt) (dev_key authz : String) (id : Identity)
    → by_key_or_token jwt dev_key [] authz ≡ ok id
    → ByDevKey dev_key authz id
unfolding by_key_or_token
by_key jwt dev_key authz id h =
    elim (Bool-cases (not (dev_key == "") && authz == ◌<>◌ "Bearer " dev_key)) [
      | inl given ↦ (
        ground (arith, eq_iff dev_key ""),
        ground (arith, eq_iff authz (◌<>◌ "Bearer " dev_key)),
        ground arith,
      )
      | inr not_given ↦ absurd (by_token-refuses jwt authz id (ground arith))
    ]

-- With no admin groups configured, as the server makes it, whoever is let in holds a session of an
-- admin email, or sent the dev key, which is not empty; a token of the identity provider is never
-- enough.
pub admin_middleware_lem :
    (jwt : Option Jwt) (dev_key : String) (session : Option (Result SessionError String))
    (admin_emails : List String) (authz : String) (id : Identity)
    → admin_middleware jwt dev_key [] session admin_emails authz ≡ ok id
    → BySession session admin_emails id ⊎ ByDevKey dev_key authz id
unfolding admin_middleware
admin_middleware_lem jwt dev_key (some (ok email)) admins authz id h =
    elim (Bool-cases (any_of email admins)) [
      | inl listed ↦ inl (listed, ground arith)
      | inr other ↦ inr (by_key jwt dev_key authz id (ground arith))
    ]
admin_middleware_lem jwt dev_key (some (err e)) admins authz id h =
    inr (by_key jwt dev_key authz id h)
admin_middleware_lem jwt dev_key none admins authz id h = inr (by_key jwt dev_key authz id h)
