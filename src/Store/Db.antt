-- ===== src/Store/Db.antt =====
-- The tables of server/internal/store/migrations/*.sql and how one statement runs. A UUID is the
-- number that it stands for, a time the number of nanoseconds since Go's zero time, NULL is `none`.
-- The environment chooses, for each statement, how much time passes before it and whether it runs.
pub mod Calm
use clawgard.Prelude.{
  ℕ, ◌+◌, String, Bool, ◌&&◌, ◌||◌, Option, none, some, List, [], ◌∷◌, ◌==◌, Comparable-String,
}
use clawgard.Exec.{Result, ok, err, Exec}

-- The CHECK constraint of threads.status.
pub data Status : Type 0 where
  open_status closed_status : Status

pub record ThreadRow : Type 0 where
  pub id : ℕ
  pub buddy_id : ℕ
  pub hatchling_email : String
  pub status : Status
  pub turns : ℕ
  pub created_at : ℕ
  pub last_activity_at : ℕ
  pub closed_at : Option ℕ
  pub close_reason : Option String

pub record BuddyRow : Type 0 where
  pub id : ℕ
  pub name : String
  pub description : String
  pub acl_mode : String
  pub acl_group_id : Option String
  pub acl_users : List String
  pub owner_email : String
  pub api_key_hash : String
  pub created_at : ℕ
  pub last_seen_at : Option ℕ
  pub deleted_at : Option ℕ

pub record Message : Type 0 where
  pub id : ℕ
  pub thread_id : ℕ
  pub role : String
  pub type : String
  pub content : String
  pub created_at : ℕ

pub record DeviceCode : Type 0 where
  pub device_code : String
  -- its bytes
  pub user_code : List ℕ
  pub expires_at : ℕ
  pub interval_seconds : ℕ
  pub approved_email : Option String

-- CHECK (acl_mode IN …), CHECK (role IN …), CHECK (type IN …)
abbrev pub check_acl_mode : String → Bool
check_acl_mode m = m == "public" || m == "group" || m == "users"

abbrev pub check_role : String → Bool
check_role r = r == "hatchling" || r == "buddy"

abbrev pub check_type : String → Bool
check_type t =
    t == "question"
    || t == "clarification"
    || t == "answer"
    || t == "clarification_request"
    || t == "close"

-- A statement runs and is answered, does not run, or runs and its answer is lost.
pub data Outcome : Type 0 where
  works refused lost : Outcome

pub record Tick : Type 0 where
  pub elapsed : ℕ
  pub outcome : Outcome

pub record Db : Type 0 where
  pub buddies : List BuddyRow
  pub threads : List ThreadRow
  pub messages : List Message
  pub codes : List DeviceCode
  pub now : ℕ
  -- what happens to the coming statements; when it is used up, they run at once
  pub schedule : List Tick
  -- the values of uuid.New(), and how many were drawn
  pub uuids : ℕ → ℕ
  pub drawn : ℕ
  -- the collation of ORDER BY name
  pub collate : String → String → Bool

pub data Error : Type 0 where
  -- the driver's or a constraint's error
  database constraint : Error
  no_rows : Error
  buddy_not_found thread_not_found : Error
  -- with the count that `IncrementTurns` returns beside the error
  turn_cap_exceeded thread_closed : ℕ → Error

abbrev pub Sql : Type 0 → Type 0
Sql A = Exec Error Db A

abbrev pub tick_outcome : List Tick → Outcome
tick_outcome [] = works
tick_outcome (t ∷ rest) = t.outcome

abbrev pub pass_time : Db → Db
pass_time db = elim db.schedule [
  | [] ↦ db
  | t ∷ rest ↦ record db { now = db.now + t.elapsed; schedule = rest }
]

abbrev pub settle {ℓ} : {A : Type ℓ} → Outcome → Db → Result Error A × Db → Result Error A × Db
settle works db (r, db') = (r, db')
settle refused db (r, db') = (err database, db)
settle lost db (r, db') = (err database, db')

-- One statement, which is atomic.
unfoldable pub statement : {A : Type 0} → Sql A → Sql A
statement body db = let db' = pass_time db in settle (tick_outcome db.schedule) db' (body db')

-- uuid.New()
unfoldable pub new_uuid : Sql ℕ
new_uuid db = (ok (db.uuids db.drawn), record db { drawn = db.drawn + 1 })
