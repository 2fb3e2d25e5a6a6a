-- ===== src/Api/AuthCallback.antt =====
-- server/internal/api/auth_callback.go: the browser login. Random texts and the answer of the
-- identity provider's token endpoint are arguments; a session cookie is the email that it is signed
-- for.
pub mod States
pub mod Flow
pub mod Logins
use clawgard.Prelude.{
  ℕ, ◌+◌, ◌-◌, ◌*◌, String, Bool, true, false, not, ◌&&◌, ◌||◌, Option, none, some, List, [], ◌∷◌,
  ◌++◌, ltb, ◌==◌, Comparable-ℕ, Comparable-String, if◌then◌else◌, strip_prefix, length, get_elem?,
}
use clawgard.Assoc.{Assoc, lookup, put, delete}
use clawgard.Router.Registry.{is_some}

pub record StateData : Type 0 where
  pub verifier : String
  pub redirect : String
  pub created_at : ℕ

pub record MemoryStateStore : Type 0 where
  pub m : Assoc String StateData
  pub ttl : ℕ

abbrev pub minute : ℕ
minute = 60_000_000_000

abbrev pub new_memory_state_store : MemoryStateStore
new_memory_state_store = record { m = []; ttl = 10 * minute }

unfoldable pub put_state : String → StateData → MemoryStateStore → MemoryStateStore
put_state state d s = record s { m = put state d s.m }

-- `time.Since(d.CreatedAt) > s.ttl`
abbrev pub unless_expired : ℕ → ℕ → Option StateData → Option StateData
unless_expired now ttl none = none
unless_expired now ttl (some d) = if ltb (d.created_at + ttl) now then none else some d

unfoldable pub take_state : String → ℕ → MemoryStateStore → Option StateData × MemoryStateStore
take_state state now s = elim (lookup state s.m) [
  | none ↦ (none, s)
  | some d ↦ (unless_expired now s.ttl (some d), record s { m = delete state s.m })
]

-- What the browser is answered: a redirect with the cookie that is set, if any, or an error.
pub data Reply : Type 0 where
  redirects : String → Option String → Reply
  fails : ℕ → Reply

abbrev pub or_root : String → String
or_root redirect = if redirect == "" then "/" else redirect

-- The target of a redirect after a login.
unfoldable pub local_redirect : String → String
local_redirect redirect =
    if redirect == "" || not (is_some (strip_prefix "/" redirect)) then "/" else redirect

-- `Login`: the flow that it starts, with its fresh verifier and state.
unfoldable pub start_flow : String → String → String → ℕ → MemoryStateStore → MemoryStateStore
unfolding put_state
start_flow redirect verifier state now s =
    put_state state (record { verifier = verifier; redirect = or_root redirect; created_at = now })
      s

abbrev pub is_dot : ℕ → Bool
is_dot b = b == b'.'

abbrev pub glue : ℕ → List (List ℕ) → List (List ℕ)
glue b [] = (b ∷ []) ∷ []
glue b (p ∷ ps) = (b ∷ p) ∷ ps

-- `strings.Split(s, ".")`
unfoldable pub split_dots : List ℕ → List (List ℕ)
split_dots [] = [] ∷ []
split_dots (b ∷ bs) = let rest = split_dots bs in if is_dot b then [] ∷ rest else glue b rest

-- The `email` of a payload; `none` when it does not decode, "" when the claim is missing.
abbrev pub Payload : Type 0
Payload = List ℕ → Option String

abbrev pub non_empty : Option String → Option String
non_empty none = none
non_empty (some e) = if e == "" then none else some e

abbrev pub middle : List (List ℕ) → Option (List ℕ)
middle (a ∷ b ∷ c ∷ []) = some b
middle _ = none

unfoldable pub extract_email_claim : Payload → List ℕ → Option String
unfolding split_dots
extract_email_claim payload token = elim (middle (split_dots token)) [
  | none ↦ none
  | some p ↦ non_empty (payload p)
]

-- The token endpoint: code and verifier to the id_token, `none` for any error on the way.
abbrev pub TokenEndpoint : Type 0
TokenEndpoint = String → String → Option (List ℕ)

unfoldable pub exchange_code : TokenEndpoint → Payload → String → String → Option String
unfolding extract_email_claim
exchange_code idp payload code verifier = elim (idp code verifier) [
  | none ↦ none
  | some token ↦ extract_email_claim payload token
]

abbrev pub finish : Option String → String → Reply
finish none redirect = fails 502
finish (some email) redirect = redirects (local_redirect redirect) (some email)

abbrev pub with_state :
    TokenEndpoint
    → Payload
    → String
    → Option StateData × MemoryStateStore
    → Reply × MemoryStateStore
with_state idp payload code (none, s) = (fails 400, s)
with_state idp payload code (some d, s) =
    (finish (exchange_code idp payload code d.verifier) d.redirect, s)

unfoldable pub callback :
    TokenEndpoint → Payload → String → String → ℕ → MemoryStateStore → Reply × MemoryStateStore
unfolding take_state local_redirect exchange_code
callback idp payload state code now s =
    if state == "" || code == ""
    then (fails 400, s)
    else with_state idp payload code (take_state state now s)

-- The dev-only shortcut.
unfoldable pub mock_login : String → String → Reply
unfolding local_redirect
mock_login email redirect =
    if email == "" then fails 400 else redirects (local_redirect redirect) (some email)
