-- ===== src/Api/Session.antt =====
-- server/internal/api/session.go. A token is its bytes. JSON, base64url and HMAC-SHA256 are the
-- functions of a `Codec`; a time is in nanoseconds, `Unix()` in seconds.
pub mod Signed
pub mod Cookies
use clawgard.Prelude.{
  ℕ, zero, suc, ◌+◌, ◌/◌, ◌≡◌, ◌≢◌, String, Bool, true, false, Option, none, some, List, [], ◌∷◌,
  ◌++◌, ltb, ◌==◌, Comparable-ℕ, if◌then◌else◌, length, get_elem?, take, drop, All, same_bytes,
}
use clawgard.Exec.{Result, ok, err}

pub data SessionError : Type 0 where
  invalid_session session_expired : SessionError

pub record SessionPayload : Type 0 where
  pub email : String
  pub expires_at : ℕ

abbrev pub dot : ℕ
dot = b'.'

-- `encode` is json.Marshal and then base64url, `decode` the way back, `none` if either fails; `mac`
-- is the HMAC of a text under the signer's secret, in base64url.
pub record Codec : Type 0 where
  pub encode : SessionPayload → List ℕ
  pub decode : List ℕ → Option SessionPayload
  pub mac : List ℕ → List ℕ

-- What the code relies on for a payload: encoded, it is not empty and is read back, and the alphabet of
-- base64url has no dot.
pub record IsEncoded (c : Codec) (p : SessionPayload) : Type 0 where
  pub reads_back : c.decode (c.encode p) ≡ some p
  pub not_empty : c.encode p ≢ []
  pub no_dot : All (λ b. b ≢ dot) (c.mac (c.encode p))

abbrev pub unix : ℕ → ℕ
unix t = t / 1_000_000_000

abbrev pub issued : String → ℕ → ℕ → SessionPayload
issued email ttl now = record { email = email; expires_at = unix (now + ttl) }

-- The loop from the last byte down to the first.
unfoldable pub last_dot : List ℕ → ℕ → Option ℕ
last_dot token zero = none
last_dot token (suc i) = elim (get_elem? token i) [
  | none ↦ last_dot token i
  | some b ↦ if b == dot then some i else last_dot token i
]

module _ (c : Codec) where
  unfoldable pub sign : String → ℕ → ℕ → List ℕ
  sign email ttl now = let enc = c.encode (issued email ttl now) in enc ++ (dot ∷ c.mac enc)

  -- The payload of a token whose signature is right.
  unfoldable pub opened : ℕ → List ℕ → Result SessionError SessionPayload
  opened i token =
      let enc = take i token in
      if same_bytes (drop (suc i) token) (c.mac enc)
      then elim (c.decode enc) [ none ↦ err invalid_session | some p ↦ ok p ]
      else err invalid_session

  abbrev pub unexpired : ℕ → Result SessionError SessionPayload → Result SessionError String
  unexpired now (err e) = err e
  unexpired now (ok p) = if ltb p.expires_at (unix now) then err session_expired else ok p.email

  unfoldable pub verify : List ℕ → ℕ → Result SessionError String
  unfolding last_dot opened
  verify token now = elim (last_dot token (length token)) [
    | none ↦ err invalid_session
    | some zero ↦ err invalid_session
    | some (suc i) ↦ unexpired now (opened (suc i) token)
  ]

  -- The cookie of the request, if there is one.
  unfoldable pub read : Option (List ℕ) → ℕ → Result SessionError String
  unfolding verify
  read none now = err invalid_session
  read (some token) now = verify token now
