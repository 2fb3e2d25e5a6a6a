-- ===== src/Api/AuthCallback/Logins.antt =====
-- A login of server/internal/api/auth_callback.go from its redirect to its callback.
use clawgard.Prelude.{
  ℕ, ◌+◌, ◌≡◌, ◌≢◌, refl, ap, ◌∙◌, inl, inr, String, true, false, ◌||◌, Option, none, some, List,
  arith, eq_iff, ltb, ◌==◌, Comparable-ℕ, Comparable-String, if◌then◌else◌, Bool-cases,
}
use clawgard.Prelude.{[], ◌∷◌, leb, codes, strip_prefix, Bool}
use clawgard.Api.AuthCallback.{Reply, redirects, local_redirect}
use clawgard.Router.Registry.{is_some}
use clawgard.Assoc.{lookup-put}
use clawgard.Api.AuthCallback.{
  MemoryStateStore, TokenEndpoint, Payload, fails, start_flow, or_root, finish, exchange_code,
  callback, put_state, extract_email_claim,
}
use clawgard.Api.AuthCallback.States.{take_state-pair, start_flow-callback}
use clawgard.Api.AuthCallback.Flow.{
  AuthConfig, Values, text, Challenge, Provider, accepted, exchange_form, posted, login,
}

-- The verified email of an id_token, if there is one.
abbrev pub email_of : Payload → Option (List ℕ) → Option String
email_of payload none = none
email_of payload (some token) = extract_email_claim payload token

exchanged :
    (idp : TokenEndpoint) (payload : Payload) (code verifier : String) (o : Option (List ℕ))
    → idp code verifier ≡ o
    → exchange_code idp payload code verifier ≡ email_of payload o
unfolding exchange_code
exchanged idp payload code verifier none e = rw (e, exchange_code) refl
exchanged idp payload code verifier (some token) e = rw (e, exchange_code) refl

-- A login that comes back too late.
start_flow-late :
    (idp : TokenEndpoint) (payload : Payload) (state code verifier redirect : String) (now now' : ℕ)
    (s : MemoryStateStore)
    → state ≢ ""
    → code ≢ ""
    → ltb (now + s.ttl) now' ≡ true
    → (callback idp payload state code now' (start_flow redirect verifier state now s)).0
      ≡ fails 400
unfolding callback start_flow put_state
start_flow-late idp payload state code verifier redirect now now' s state_ne code_ne late =
    let kept = start_flow redirect verifier state now s in
    rw
      (
        given,
        take_state-pair state now' kept,
        lookup-put state state
            (record { verifier = verifier; redirect = or_root redirect; created_at = now }) s.m,
        itself,
        late,
      )
      refl
  where
    given : (state == "" || code == "") ≡ false
    given = ground (arith, eq_iff state "", eq_iff code "")

    itself : (state == state) ≡ true
    itself = ground (arith, eq_iff state state)

abbrev pub has_slash : List ℕ → Bool
has_slash [] = false
has_slash (c ∷ cs) = c == b'/'

-- Where a login leads in the end: to its own page, if that is a path from the root.
abbrev pub landing : String → String
landing redirect = if has_slash (codes redirect) then redirect else "/"

strip_slash : (s : String) → is_some (strip_prefix "/" s) ≡ has_slash (codes s)
unfolding strip_prefix
strip_slash String.[] = refl
strip_slash (String.◌∷◌ c s) = ground arith

local_redirect-or_root : (redirect : String) → local_redirect (or_root redirect) ≡ landing redirect
unfolding local_redirect strip_prefix
local_redirect-or_root String.[] = refl
local_redirect-or_root (String.◌∷◌ c s) = elim (Bool-cases (String.◌∷◌ c s == "")) [
  | inl e ↦ absurd (not_empty ((eq_iff (String.◌∷◌ c s) "").0 e))
  | inr ne ↦ rw (ne, ne) (ground arith)
]
  where
    not_empty : String.◌∷◌ c s ≡ "" → ⊥
    not_empty e = cc

-- What the answer of the token endpoint leads to: a status below 400 with a token that holds an email to
-- the page with the session of that email, all else to 502.
abbrev pub concluded : Payload → String → Option (ℕ × Option (List ℕ)) → Reply
concluded payload page none = fails 502
concluded payload page (some (status, none)) = fails 502
concluded payload page (some (status, some token)) =
    if leb 400 status then fails 502 else elim (extract_email_claim payload token) [
      | none ↦ fails 502
      | some email ↦ redirects page (some email)
    ]

by_email :
    (o : Option String) (redirect : String)
    → finish o (or_root redirect)
      ≡ elim o [ none ↦ fails 502 | some email ↦ redirects (landing redirect) (some email) ]
by_email none redirect = refl
by_email (some email) redirect = rw (local_redirect-or_root redirect) refl

by_answer :
    (payload : Payload) (redirect : String) (o : Option (ℕ × Option (List ℕ)))
    → finish (email_of payload (accepted o)) (or_root redirect)
      ≡ concluded payload (landing redirect) o
by_answer payload redirect none = refl
by_answer payload redirect (some (status, none)) = ground arith
by_answer payload redirect (some (status, some token)) = elim (Bool-cases (leb 400 status)) [
  | inl refused ↦ let late : ltb status 400 ≡ false = ground arith in rw (late, refused) refl
  | inr fine ↦
      let below : ltb status 400 ≡ true = ground arith in
      rw (below, fine) (by_email (extract_email_claim payload token) redirect)
]

-- A login that has been sent to the identity provider and comes back with its state and a code. Within
-- the lifetime of the state, the provider is asked at its token endpoint with exactly the form that is
-- written here: the code of the callback, the client's own redirect URL, id and secret, if there is
-- one, and the verifier of this login. If it answers below 400 with a token that holds an email, that
-- leads to the page of the login, or to the root where the page does not begin with a slash, with the
-- cookie of that email, and any other answer to 502. Later than that, it leads to 400.
pub login-callback :
    (challenge : Challenge) (cfg : AuthConfig) (idp : Provider) (payload : Payload)
    (state code verifier redirect : String) (now now' : ℕ) (s : MemoryStateStore)
    → state ≢ ""
    → code ≢ ""
    → let secret : Values =
        if cfg.client_secret == "" then [] else ("client_secret", text cfg.client_secret) ∷ [] in
      let form : Values =
        ("grant_type", text "authorization_code")
        ∷ ("code", text code)
        ∷ ("redirect_uri", text cfg.redirect_url)
        ∷ ("client_id", text cfg.client_id)
        ∷ ("code_verifier", text verifier)
        ∷ secret in
      (callback
        (posted idp cfg)
        payload
        state
        code
        now'
        (login challenge cfg redirect verifier state now s).1).0
      ≡ (if ltb (now + s.ttl) now'
          then fails 400
          else concluded payload (landing redirect) (idp cfg.idp_token_url form))
unfolding login posted exchange_form
login-callback challenge cfg idp payload state code verifier redirect now now' s state_ne code_ne =
    elim (Bool-cases (ltb (now + s.ttl) now')) [
      | inl late ↦ rw late (
          start_flow-late (posted idp cfg) payload state code verifier redirect now now' s state_ne
            code_ne late)
      | inr in_time ↦ rw in_time (
          start_flow-callback (posted idp cfg) payload state code verifier redirect now now' s
            state_ne code_ne (ground arith)
          ∙ ap (λ e. finish e (or_root redirect))
              (exchanged (posted idp cfg) payload code verifier _ refl)
          ∙ by_answer payload redirect (idp cfg.idp_token_url (exchange_form cfg code verifier)))
    ]
