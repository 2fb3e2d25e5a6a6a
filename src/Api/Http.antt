-- ===== src/Api/Http.antt =====
-- Requests and responses of server/internal/api: identity (middleware.go), writeError (health.go),
-- and the response helpers of admin.go. Text of a response is kept as its fields, before encoding
-- as JSON.
use clawgard.Prelude.{◌≡◌, ℕ, String, Bool, false, Option, none, some, List, [], ◌∷◌}
use clawgard.Store.Db.{Error, Message}
use clawgard.Store.Threads.{Thread}
use clawgard.Store.Buddies.{Acl, Buddy}

-- github.com/google/uuid: a text that `Parse` accepts stands for a number, `String` prints it.
pub record Uuid : Type 0 where
  pub parse : String → Option ℕ
  pub print : ℕ → String

-- What the code relies on: a printed UUID is read back.
abbrev pub ReadsBack : Uuid → Type 0
ReadsBack u = (n : ℕ) → u.parse (u.print n) ≡ some n

pub record Identity : Type 0 where
  pub email : String
  pub groups : List String
  pub admin : Bool
  pub buddy_id : String

-- `id, _ := IdentityFromContext(…)`: the zero value when there is none.
abbrev pub identity_or_zero : Option Identity → Identity
identity_or_zero none = record { email = ""; groups = []; admin = false; buddy_id = "" }
identity_or_zero (some id) = id

-- The message of an error response: a text of the code, `err.Error()`, or both in this order.
pub data Text : Type 0 where
  says : String → Text
  cause : Error → Text
  because : String → Error → Text

pub record ThreadResp : Type 0 where
  pub id : String
  pub buddy_id : String
  pub hatchling_email : String
  pub status : String
  pub turns : ℕ
  pub created_at : ℕ
  pub closed_at : Option ℕ
  pub messages : Option (List Message)

pub record BuddyResp : Type 0 where
  pub id : String
  pub name : String
  pub description : String
  pub acl : Acl
  pub owner_email : String
  pub created_at : ℕ
  pub online : Bool
  pub last_seen_at : Option ℕ

pub data Body : Type 0 where
  empty : Body
  error : String → Text → Body
  thread : ThreadResp → Body
  threads : List ThreadResp → ℕ → Body
  buddy : BuddyResp → Body
  buddies : List BuddyResp → Body
  created : BuddyResp → String → Body
  api_key : String → Body
  -- device code, user code, verification URI, interval and lifetime in seconds
  device : String → List ℕ → String → ℕ → ℕ → Body
  -- access token, expiry, email
  token : String → ℕ → String → Body

pub record Response : Type 0 where
  pub status : ℕ
  pub body : Body

abbrev pub respond : ℕ → Body → Response
respond status body = record { status = status; body = body }

abbrev pub write_error : ℕ → String → Text → Response
write_error status code msg = respond status (error code msg)

abbrev pub internal : Error → Response
internal e = write_error 500 "internal" (cause e)

-- The stores return a nil slice when they find no row, and a nil slice is left out.
abbrev pub messages_field : List Message → Option (List Message)
messages_field [] = none
messages_field (m ∷ ms) = some (m ∷ ms)

module _ (u : Uuid) where
  abbrev pub to_thread_resp : Thread → List Message → ThreadResp
  to_thread_resp t msgs = record {
    id = u.print t.id;
    buddy_id = u.print t.buddy_id;
    hatchling_email = t.hatchling_email;
    status = t.status;
    turns = t.turns;
    created_at = t.created_at;
    closed_at = t.closed_at;
    messages = messages_field msgs;
  }

  abbrev pub to_buddy_resp : Buddy → BuddyResp
  to_buddy_resp b = record {
    id = u.print b.id;
    name = b.name;
    description = b.description;
    acl = b.acl;
    owner_email = b.owner_email;
    created_at = b.created_at;
    online = false;
    last_seen_at = b.last_seen_at;
  }
