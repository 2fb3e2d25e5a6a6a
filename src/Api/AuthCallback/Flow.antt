-- ===== src/Api/AuthCallback/Flow.antt =====
-- The requests of server/internal/api/auth_callback.go to the identity provider: the redirect of `Login`
-- and the form of `exchangeCode`. SHA-256 and base64url are an argument.
use clawgard.Prelude.{
  ℕ, ◌*◌, String, Bool, Option, none, some, List, [], ◌∷◌, ◌++◌, ltb, ◌==◌, Comparable-ℕ,
  Comparable-String, if◌then◌else◌,
}
use clawgard.Api.AuthCallback.{MemoryStateStore, TokenEndpoint, minute, start_flow}

pub record AuthConfig : Type 0 where
  pub idp_auth_url : String
  pub idp_token_url : String
  pub client_id : String
  pub client_secret : String
  pub redirect_url : String
  pub scopes : List String
  pub session_ttl : ℕ
  pub dev : Bool

abbrev or_default_scopes : List String → List String
or_default_scopes [] = "openid" ∷ "email" ∷ "profile" ∷ []
or_default_scopes (s ∷ ss) = s ∷ ss

-- 8 hours and three scopes where nothing else is asked for.
unfoldable pub new_auth_handler : AuthConfig → AuthConfig
new_auth_handler cfg = record cfg {
  session_ttl = if cfg.session_ttl == 0 then 8 * (60 * minute) else cfg.session_ttl;
  scopes = or_default_scopes cfg.scopes;
}

-- A value of the query or of the form: a text, or the scopes joined by spaces.
pub data Value : Type 0 where
  text : String → Value
  joined : List String → Value

abbrev pub Values : Type 0
Values = List (String × Value)

-- base64url(sha256(verifier))
abbrev pub Challenge : Type 0
Challenge = String → String

unfoldable pub login_query : Challenge → AuthConfig → String → String → Values
login_query challenge cfg state verifier =
    ("client_id", text cfg.client_id)
    ∷ ("redirect_uri", text cfg.redirect_url)
    ∷ ("response_type", text "code")
    ∷ ("scope", joined cfg.scopes)
    ∷ ("state", text state)
    ∷ ("code_challenge", text (challenge verifier))
    ∷ ("code_challenge_method", text "S256")
    ∷ []

-- `Login`: where the browser is sent, and the store with the flow.
unfoldable pub login :
    Challenge
    → AuthConfig
    → String
    → String
    → String
    → ℕ
    → MemoryStateStore
    → (String × Values) × MemoryStateStore
unfolding login_query
login challenge cfg redirect verifier state now s = (
  (cfg.idp_auth_url, login_query challenge cfg state verifier),
  start_flow redirect verifier state now s,
)

abbrev secret_part : String → Values
secret_part secret = if secret == "" then [] else ("client_secret", text secret) ∷ []

unfoldable pub exchange_form : AuthConfig → String → String → Values
exchange_form cfg code verifier =
    (("grant_type", text "authorization_code")
      ∷ ("code", text code)
      ∷ ("redirect_uri", text cfg.redirect_url)
      ∷ ("client_id", text cfg.client_id)
      ∷ ("code_verifier", text verifier)
      ∷ [])
    ++ secret_part cfg.client_secret

-- The answer of the provider: none if the request fails, else its status and the id_token of its body,
-- if it decodes.
abbrev pub Provider : Type 0
Provider = String → Values → Option (ℕ × Option (List ℕ))

abbrev pub accepted : Option (ℕ × Option (List ℕ)) → Option (List ℕ)
accepted none = none
accepted (some (status, body)) = if ltb status 400 then body else none

-- The token endpoint as the callback uses it.
unfoldable pub posted : Provider → AuthConfig → TokenEndpoint
unfolding exchange_form
posted idp cfg code verifier = accepted (idp cfg.idp_token_url (exchange_form cfg code verifier))
