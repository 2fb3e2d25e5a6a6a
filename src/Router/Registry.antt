-- ===== src/Router/Registry.antt =====
-- server/internal/router/registry.go. A buddy id is the number that its UUID stands for; a writer
-- callback is the number of the connection whose channel it fills; a Go channel of capacity 4 is a
-- queue in `channels`, and the map of waiters holds its index, so that a reader who holds a
-- channel still has it after the map entry is gone.
pub mod Invariant
pub mod Connections
pub mod Replies
use clawgard.Prelude.{
  ℕ, ◌+◌, ◌%◌, ◌^◌, String, Bool, true, false, ◌&&◌, Option, none, some, List, [], ◌∷◌, ◌++◌, ltb,
  ◌==◌, if◌then◌else◌, length, get_elem?, set, Comparable-ℕ, Comparable-String,
}
use clawgard.Assoc.{Assoc, lookup, put, delete}

-- What the server sends to a buddy.
pub record InFrame : Type 0 where
  pub type : String
  pub thread_id : String
  pub content : String
  pub asker_email : String

-- What the server receives from a buddy.
pub record OutFrame : Type 0 where
  pub type : String
  pub thread_id : String
  pub content : String
  pub reason : String

pub record BuddyEntry : Type 0 where
  pub writer : ℕ
  pub gen : ℕ

pub record Registry : Type 0 where
  pub buddies : Assoc ℕ BuddyEntry
  pub gen : ℕ
  pub waiters : Assoc String ℕ
  pub channels : List (List OutFrame)

abbrev pub channel_capacity : ℕ
channel_capacity = 4

abbrev pub u64_mod : ℕ
u64_mod = 2 ^ 64

abbrev pub new_registry : Registry
new_registry = record { buddies = []; gen = 0; waiters = []; channels = [] }

-- Returns the generation that the cancel function captures.
unfoldable pub register_buddy : ℕ → ℕ → Registry → ℕ × Registry
register_buddy id writer r =
    let gen = (r.gen + 1) % u64_mod in
    (
      gen,
      record r { buddies = put id (record { writer = writer; gen = gen }) r.buddies; gen = gen },
    )

abbrev pub is_gen : ℕ → Option BuddyEntry → Bool
is_gen gen none = false
is_gen gen (some cur) = cur.gen == gen

-- The cancel function of the registration of `id` with generation `gen`.
unfoldable pub unregister : ℕ → ℕ → Registry → Registry
unregister id gen r =
    if is_gen gen (lookup id r.buddies) then record r { buddies = delete id r.buddies } else r

abbrev pub is_some {ℓ} : {A : Type ℓ} → Option A → Bool
is_some none = false
is_some (some _) = true

unfoldable pub online : ℕ → Registry → Bool
online id r = is_some (lookup id r.buddies)

-- `make(chan OutFrame, 4)`, stored in the map of waiters.
unfoldable pub make_waiter : String → Registry → ℕ × Registry
make_waiter thread r =
    let ch = length r.channels in
    (ch, record r { waiters = put thread ch r.waiters; channels = r.channels ++ [] ∷ [] })

-- The channel of a thread, made if there is none.
unfoldable pub ensure_waiter : String → Registry → ℕ × Registry
unfolding make_waiter
ensure_waiter thread r = elim (lookup thread r.waiters) [
  | some ch ↦ (ch, r)
  | none ↦ make_waiter thread r
]

-- `none` is `ErrBuddyOffline`; otherwise the writer to which the frame is handed after the unlock.
unfoldable pub send_question : ℕ → InFrame → Registry → Option ℕ × Registry
unfolding ensure_waiter
send_question buddy frame r = elim (lookup buddy r.buddies) [
  | none ↦ (none, r)
  | some entry ↦ (some entry.writer, (ensure_waiter frame.thread_id r).1)
]

abbrev pub buffer_at : ℕ → List (List OutFrame) → List OutFrame
buffer_at ch chans = elim (get_elem? chans ch) [ none ↦ [] | some q ↦ q ]

-- `select { case ch <- frame: default: }`
unfoldable pub offer : ℕ → OutFrame → Registry → Registry
offer ch frame r =
    let q = buffer_at ch r.channels in
    if ltb (length q) channel_capacity
    then record r { channels = set r.channels ch (q ++ frame ∷ []) }
    else r

unfoldable pub deliver_out_frame : OutFrame → Registry → Registry
unfolding offer
deliver_out_frame frame r = elim (lookup frame.thread_id r.waiters) [
  | none ↦ r
  | some ch ↦ offer ch frame r
]

pub data Waited : Type 0 where
  received : OutFrame → Waited
  cancelled : Waited
  blocked : Waited

-- One poll of `select { case f := <-ch: case <-ctx.Done(): }`. When both are ready Go chooses
-- either: `prefer_done` is that choice.
unfoldable pub poll : ℕ → Bool → Bool → Registry → Waited × Registry
poll ch done prefer_done r = elim (buffer_at ch r.channels) [
  | [] ↦ (if done then cancelled else blocked, r)
  | f ∷ rest ↦
      if done && prefer_done
      then (cancelled, r)
      else (received f, record r { channels = set r.channels ch rest })
]

-- `WaitForFrame` up to its first poll.
unfoldable pub wait_for_frame : String → Bool → Bool → Registry → Waited × Registry
unfolding ensure_waiter poll
wait_for_frame thread done prefer_done r =
    let (ch, r') = ensure_waiter thread r in poll ch done prefer_done r'

unfoldable pub clear_waiter : String → Registry → Registry
clear_waiter thread r = record r { waiters = delete thread r.waiters }

pub data Op : Type 0 where
  registers : ℕ → ℕ → Op
  unregisters : ℕ → ℕ → Op
  sends : ℕ → InFrame → Op
  delivers : OutFrame → Op
  waits : String → Bool → Bool → Op
  polls : ℕ → Bool → Bool → Op
  clears : String → Op

unfoldable pub step : Op → Registry → Registry
step (registers id writer) r = (register_buddy id writer r).1
step (unregisters id gen) r = unregister id gen r
step (sends id frame) r = (send_question id frame r).1
step (delivers frame) r = deliver_out_frame frame r
step (waits thread done prefer_done) r = (wait_for_frame thread done prefer_done r).1
step (polls ch done prefer_done) r = (poll ch done prefer_done r).1
step (clears thread) r = clear_waiter thread r

unfoldable pub run : List Op → Registry → Registry
run [] r = r
run (op ∷ ops) r = run ops (step op r)
