-- ===== src/Store/History.antt =====
-- How the statements of server/internal/store may change the tables: the history of rows, and what
-- consistent tables are.
mod Lists
pub mod Statements
pub mod Inserts
pub mod Operations
pub mod Accounts
pub use Lists.{Grows, Grows-refl, Grows-trans, Grows-append, Grows-update_where}
pub use Lists.{
  exists-Grows, exists-append, exists-append_self, exists-update_where, UniqueIds, UniqueIds-append,
  UniqueIds-update_where,
}
use clawgard.Prelude.{
  ℕ, ◌≤◌, ◌≡◌, refl, ◌∙◌, sym, ap, String, Bool, true, false, ◌&&◌, Option, none, some, List, [],
  ◌∷◌, ◌++◌, arith, exists, All, All-map,
}
use mathlib.Core.List.{append-nil, append_assoc}
use clawgard.Exec.Respects.{IsPreorder}
use clawgard.Store.Db.{
  Db, ThreadRow, BuddyRow, Message, Status, open_status, closed_status, check_role, check_type,
  check_acl_mode,
}
use clawgard.Store.Threads.{has_id, max_turns}

-- A thread keeps its key, its buddy and its asker; its turns do not fall; once closed it stays
-- closed, with its turns, its time and its reason.
pub record ThreadAdvances (r s : ThreadRow) : Type 0 where
  pub same_id : s.id ≡ r.id
  pub same_buddy : s.buddy_id ≡ r.buddy_id
  pub same_asker : s.hatchling_email ≡ r.hatchling_email
  pub same_created : s.created_at ≡ r.created_at
  pub turns_grow : r.turns ≤ s.turns
  pub stays_closed : r.status ≡ closed_status → s.status ≡ closed_status
  pub same_turns : r.status ≡ closed_status → s.turns ≡ r.turns
  pub same_closed_at : r.status ≡ closed_status → s.closed_at ≡ r.closed_at
  pub same_reason : r.status ≡ closed_status → s.close_reason ≡ r.close_reason

pub ThreadAdvances-refl : (r : ThreadRow) → ThreadAdvances r r
ThreadAdvances-refl r = record {
  same_id = refl;
  same_buddy = refl;
  same_asker = refl;
  same_created = refl;
  turns_grow = omega arith;
  stays_closed = λ h. h;
  same_turns = λ h. refl;
  same_closed_at = λ h. refl;
  same_reason = λ h. refl;
}

pub ThreadAdvances-trans :
    (r s t : ThreadRow) → ThreadAdvances r s → ThreadAdvances s t → ThreadAdvances r t
ThreadAdvances-trans r s t a b = record {
  same_id = b.same_id ∙ a.same_id;
  same_buddy = b.same_buddy ∙ a.same_buddy;
  same_asker = b.same_asker ∙ a.same_asker;
  same_created = b.same_created ∙ a.same_created;
  turns_grow = omega (arith, a.turns_grow, b.turns_grow);
  stays_closed = λ h. b.stays_closed (a.stays_closed h);
  same_turns = λ h. b.same_turns (a.stays_closed h) ∙ a.same_turns h;
  same_closed_at = λ h. b.same_closed_at (a.stays_closed h) ∙ a.same_closed_at h;
  same_reason = λ h. b.same_reason (a.stays_closed h) ∙ a.same_reason h;
}

-- A buddy keeps its key, name and owner, and is never deleted back.
pub record BuddyAdvances (r s : BuddyRow) : Type 0 where
  pub same_id : s.id ≡ r.id
  pub same_name : s.name ≡ r.name
  pub same_owner : s.owner_email ≡ r.owner_email
  pub stays_deleted : (t : ℕ) → r.deleted_at ≡ some t → s.deleted_at ≡ some t

pub BuddyAdvances-refl : (r : BuddyRow) → BuddyAdvances r r
BuddyAdvances-refl r = record {
  same_id = refl;
  same_name = refl;
  same_owner = refl;
  stays_deleted = λ t h. h;
}

pub BuddyAdvances-trans :
    (r s t : BuddyRow) → BuddyAdvances r s → BuddyAdvances s t → BuddyAdvances r t
BuddyAdvances-trans r s t a b = record {
  same_id = b.same_id ∙ a.same_id;
  same_name = b.same_name ∙ a.same_name;
  same_owner = b.same_owner ∙ a.same_owner;
  stays_deleted = λ n h. b.stays_deleted n (a.stays_deleted n h);
}

-- Rows are added behind the old ones, which only advance; messages are never changed or removed.
pub record Advances (db db' : Db) : Type 0 where
  pub threads : Grows ThreadAdvances db.threads db'.threads
  pub buddies : Grows BuddyAdvances db.buddies db'.buddies
  pub messages : Grows (λ m n. n ≡ m) db.messages db'.messages
  pub clock : db.now ≤ db'.now

-- A status agrees with closed_at.
abbrev pub ClosedMatches : Status → Option ℕ → Type 0
ClosedMatches open_status none = Unit {0}
ClosedMatches open_status (some _) = ⊥
ClosedMatches closed_status none = ⊥
ClosedMatches closed_status (some _) = Unit {0}

pub record IsSoundThread (now : ℕ) (r : ThreadRow) : Type 0 where
  pub capped : r.turns ≤ max_turns
  pub closed_matches : ClosedMatches r.status r.closed_at
  pub active_after : r.created_at ≤ r.last_activity_at
  pub active_before : r.last_activity_at ≤ now

pub record IsSoundMessage (threads : List ThreadRow) (m : Message) : Type 0 where
  pub has_thread : exists (has_id m.thread_id) threads ≡ true
  pub known_role : check_role m.role ≡ true
  pub known_type : check_type m.type ≡ true

pub record IsSound (db : Db) : Type 0 where
  pub threads : All (IsSoundThread db.now) db.threads
  pub unique : UniqueIds (λ r. r.id) db.threads
  pub messages : All (IsSoundMessage db.threads) db.messages
  pub modes : All (λ b. check_acl_mode b.acl_mode ≡ true) db.buddies

-- What holds of every store operation: history advances and the tables stay sound.
pub record Evolves (db db' : Db) : Type 0 where
  pub advances : Advances db db'
  pub sound : IsSound db → IsSound db'

pub Evolves-order : IsPreorder Evolves
Evolves-order = record {
  same = λ db. record {
    advances = record {
      threads = Grows-refl ThreadAdvances ThreadAdvances-refl db.threads;
      buddies = Grows-refl BuddyAdvances BuddyAdvances-refl db.buddies;
      messages = Grows-refl (λ m n. n ≡ m) (λ m. refl) db.messages;
      clock = omega arith;
    };
    sound = λ s. s;
  };
  next = λ a b c x y. record {
    advances = record {
      threads =
          Grows-trans ThreadAdvances ThreadAdvances-trans a.threads b.threads c.threads
            x.advances.threads y.advances.threads;
      buddies =
          Grows-trans BuddyAdvances BuddyAdvances-trans a.buddies b.buddies c.buddies
            x.advances.buddies y.advances.buddies;
      messages =
          Grows-trans (λ m n. n ≡ m) (λ l m n p q. q ∙ p) a.messages b.messages c.messages
            x.advances.messages y.advances.messages;
      clock = omega (arith, x.advances.clock, y.advances.clock);
    };
    sound = λ s. y.sound (x.sound s);
  };
}
