-- ===== src/Api/AuthCallback/States.antt =====
-- The states of the browser login in server/internal/api/auth_callback.go.
use clawgard.Prelude.{
  ℕ, ◌+◌, ◌≤◌, ◌≡◌, ◌≢◌, refl, ◌∙◌, inl, inr, String, Bool, true, false, ◌||◌, Option, none, some,
  arith, eq_iff, ltb, ◌==◌, Comparable-ℕ, Comparable-String, if◌then◌else◌, subst, sym, Bool-cases,
}
use clawgard.Assoc.{lookup, delete, lookup-put, lookup-delete}
use clawgard.Api.AuthCallback.{
  StateData, MemoryStateStore, TokenEndpoint, Payload, Reply, fails, take_state, start_flow,
  unless_expired, or_root, finish, exchange_code, callback, with_state, put_state,
}

abbrev left : MemoryStateStore → Option StateData → String → MemoryStateStore
left s none state = s
left s (some d) state = record s { m = delete state s.m }

pub take_state-pair :
    (state : String) (now : ℕ) (s : MemoryStateStore)
    → take_state state now s
      ≡ (unless_expired now s.ttl (lookup state s.m), left s (lookup state s.m) state)
unfolding take_state
take_state-pair state now s = by_entry (lookup state s.m) refl
  where
    by_entry :
        (o : Option StateData)
        → lookup state s.m ≡ o
        → take_state state now s ≡ (unless_expired now s.ttl o, left s o state)
    by_entry none e = rw (take_state, e) refl
    by_entry (some d) e = rw (take_state, e) refl

left-gone :
    (state : String) (s : MemoryStateStore) (o : Option StateData)
    → lookup state s.m ≡ o
    → lookup state (left s o state).m ≡ none
left-gone state s none e = e
left-gone state s (some d) e = lookup-delete state state s.m ∙ ground (arith, eq_iff state state)

take_state-gone :
    (state : String) (now : ℕ) (s : MemoryStateStore)
    → lookup state (take_state state now s).1.m ≡ none
take_state-gone state now s =
    rw (take_state-pair state now s) (left-gone state s (lookup state s.m) refl)

with_state-store :
    (idp : TokenEndpoint) (payload : Payload) (code : String)
    (r : Option StateData × MemoryStateStore)
    → (with_state idp payload code r).1 ≡ r.1
with_state-store idp payload code (none, s) = refl
with_state-store idp payload code (some d, s) = refl

either_way :
    (b : Bool) (r : Reply) (s : MemoryStateStore)
    → (if◌then◌else◌ {A = Reply × MemoryStateStore} b (r, s) (r, s)).0 ≡ r
either_way true r s = refl
either_way false r s = refl

callback-gone :
    (idp : TokenEndpoint) (payload : Payload) (state code : String) (now : ℕ) (s : MemoryStateStore)
    → lookup state s.m ≡ none
    → (callback idp payload state code now s).0 ≡ fails 400
unfolding callback
callback-gone idp payload state code now s gone =
    rw (take_state-pair state now s, gone) (either_way (state == "" || code == "") (fails 400) s)

callback-store :
    (idp : TokenEndpoint) (payload : Payload) (state code : String) (now : ℕ) (s : MemoryStateStore)
    → (state == "" || code == "") ≡ false
    → (callback idp payload state code now s).1 ≡ (take_state state now s).1
unfolding callback
callback-store idp payload state code now s given =
    rw given (with_state-store idp payload code (take_state state now s))

-- A callback with a code uses its state up: whatever became of it, a second callback with the same
-- state is answered 400.
pub callback_once :
    (idp : TokenEndpoint) (payload : Payload) (state code code' : String) (now now' : ℕ)
    (s : MemoryStateStore)
    → code ≢ ""
    → let (r, s') = callback idp payload state code now s in
      (callback idp payload state code' now' s').0 ≡ fails 400
unfolding callback
callback_once idp payload state code code' now now' s ne = elim (Bool-cases (state == "")) [
  | inl empty ↦ callback-unnamed idp payload state code' now' _ empty
  | inr given ↦ callback-gone idp payload state code' now' _ (
      subst (λ (x : MemoryStateStore). lookup state x.m ≡ none)
        (sym (callback-store idp payload state code now s (ground (arith, eq_iff code ""))))
        (take_state-gone state now s))
]
  where
    callback-unnamed :
        (idp : TokenEndpoint) (payload : Payload) (state code : String) (now : ℕ)
        (s : MemoryStateStore)
        → (state == "") ≡ true
        → (callback idp payload state code now s).0 ≡ fails 400
    callback-unnamed idp payload state code now s empty = rw empty refl

-- A login that comes back in time, with a code, is exchanged with its own verifier: it leads to the
-- local page of the login, with the cookie of the verified email, or to 502.
pub start_flow-callback :
    (idp : TokenEndpoint) (payload : Payload) (state code verifier redirect : String) (now now' : ℕ)
    (s : MemoryStateStore)
    → state ≢ ""
    → code ≢ ""
    → now' ≤ now + s.ttl
    → (callback idp payload state code now' (start_flow redirect verifier state now s)).0
      ≡ finish (exchange_code idp payload code verifier) (or_root redirect)
unfolding callback start_flow put_state
start_flow-callback idp payload state code verifier redirect now now' s state_ne code_ne in_time =
    let kept = start_flow redirect verifier state now s in
    rw
      (
        given,
        take_state-pair state now' kept,
        lookup-put state state
            (record { verifier = verifier; redirect = or_root redirect; created_at = now }) s.m,
        itself,
        fresh,
      )
      refl
  where
    given : (state == "" || code == "") ≡ false
    given = ground (arith, eq_iff state "", eq_iff code "")

    itself : (state == state) ≡ true
    itself = ground (arith, eq_iff state state)

    fresh : ltb (now + s.ttl) now' ≡ false
    fresh = ground arith
