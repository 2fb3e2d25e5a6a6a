-- ===== src/Tests/Fixtures.antt =====
-- A small server for the examples: one buddy with one connection, an open thread, a thread at its cap
-- and a closed one.
use clawgard.Prelude.{
  ℕ, ◌+◌, String, true, false, Option, none, some, [], ◌∷◌, ◌==◌, Comparable-ℕ, Comparable-String,
  if◌then◌else◌, refl, arith, ◌≡◌, ◌≢◌, eq_iff,
}
use clawgard.Assoc.{lookup}
use clawgard.Store.Db.{Db, ThreadRow, BuddyRow, open_status, closed_status}
use clawgard.Store.History.{UniqueIds, IsSound}
use clawgard.Api.Safety.{IsWired}
use clawgard.Router.Registry.Invariant.{IsValid}
use clawgard.Router.Registry.{InFrame, OutFrame, BuddyEntry, Registry}
use clawgard.Api.Http.{Uuid, Identity}
use clawgard.Api.World.{World}

-- Keys of one letter.
abbrev pub parse_key : String → Option ℕ
parse_key s =
    if s == "a"
    then some 10
    else if s == "b"
    then some 11
    else if s == "c"
    then some 12
    else if s == "z"
    then some 7
    else none

abbrev pub print_key : ℕ → String
print_key n =
    if n == 10
    then "a"
    else if n == 11
    then "b"
    else if n == 12
    then "c"
    else if n == 7
    then "z"
    else "new"

abbrev pub keys : Uuid
keys = record { parse = parse_key; print = print_key }

abbrev pub buddy_row : BuddyRow
buddy_row = record {
  id = 7;
  name = "docs";
  description = "";
  acl_mode = "public";
  acl_group_id = none;
  acl_users = [];
  owner_email = "olga@x.org";
  api_key_hash = "hash";
  created_at = 1;
  last_seen_at = none;
  deleted_at = none;
}

abbrev pub open_row : ThreadRow
open_row = record {
  id = 10;
  buddy_id = 7;
  hatchling_email = "ana@x.org";
  status = open_status;
  turns = 1;
  created_at = 20;
  last_activity_at = 30;
  closed_at = none;
  close_reason = none;
}

abbrev pub full_row : ThreadRow
full_row = record open_row { id = 11; turns = 3; last_activity_at = 90 }

abbrev pub ended_row : ThreadRow
ended_row = record open_row {
  id = 12;
  status = closed_status;
  closed_at = some 40;
  close_reason = some "answered";
}

abbrev pub db : Db
db = record {
  buddies = buddy_row ∷ [];
  threads = open_row ∷ full_row ∷ ended_row ∷ [];
  messages = [];
  codes = [];
  now = 100;
  schedule = [];
  uuids = λ n. n + 100;
  drawn = 0;
  collate = λ a b. true;
}

abbrev pub answer_frame : OutFrame
answer_frame = record { type = "answer"; thread_id = "a"; content = "42"; reason = "" }

abbrev pub question_frame : InFrame
question_frame = record {
  type = "question";
  thread_id = "a";
  content = "why";
  asker_email = "ana@x.org";
}

abbrev pub entry : BuddyEntry
entry = record { writer = 1; gen = 1 }

abbrev pub registry : Registry
registry = record { buddies = (7, entry) ∷ []; gen = 1; waiters = []; channels = [] }

abbrev pub world : World
world = record { db = db; reg = registry; wires = (1, []) ∷ [] }

abbrev pub ana : Option Identity
ana = some (record { email = "ana@x.org"; groups = []; admin = false; buddy_id = "" })

abbrev pub bob : Option Identity
bob = some (record { email = "bob@x.org"; groups = "staff" ∷ []; admin = false; buddy_id = "" })

pub unique : UniqueIds (λ r. r.id) db.threads
unique = (refl, (refl, (refl, tt)))

pub db-IsSound : IsSound db
db-IsSound = record {
  threads = (
    record {
      capped = omega arith;
      closed_matches = tt;
      active_after = omega arith;
      active_before = omega arith;
    },
    (
      record {
        capped = omega arith;
        closed_matches = tt;
        active_after = omega arith;
        active_before = omega arith;
      },
      (
        record {
          capped = omega arith;
          closed_matches = tt;
          active_after = omega arith;
          active_before = omega arith;
        },
        tt,
      ),
    ),
  );
  unique = unique;
  messages = tt;
  modes = (refl, tt);
}

pub registry-IsValid : IsValid registry
unfolding lookup
registry-IsValid = record { bounded = tt; in_range = λ t ch e. cc; unshared = λ s t ch e f. cc }

pub world-IsWired : IsWired world
unfolding lookup
world-IsWired conn = ground arith

pub differ : (s t : String) → (s == t) ≡ false → s ≢ t
differ s t h = ground (arith, eq_iff s t)
