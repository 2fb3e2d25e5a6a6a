-- ===== src/Api/BuddyWs.antt =====
-- server/internal/api/buddy_ws.go and server/internal/auth/apikey.go (verification). A connection is
-- its number; its read loop is a list of messages, each decoded from JSON (`none` when that fails).
pub mod Keys
pub mod Persisted
use clawgard.Prelude.{
  ℕ, String, Bool, true, false, not, ◌&&◌, ◌||◌, Option, none, some, List, [], ◌∷◌, ◌==◌,
  Comparable-ℕ, Comparable-String, if◌then◌else◌, strip_prefix,
}
use clawgard.Exec.{Result, ok, err, Exec, pure, leave, reads, guard, ◌>>=◌, ◌>>◌}
use clawgard.Assoc.{put}
use clawgard.Store.Db.{Db, Error, Sql}
use clawgard.Store.Threads.{close}
use clawgard.Store.Buddies.{Buddy, list_all, touch_last_seen}
use clawgard.Store.Messages.{NewMessage, append}
use clawgard.Router.Registry.{OutFrame, register_buddy, unregister, deliver_out_frame}
use clawgard.Api.Http.{Uuid, Response, write_error, says}
use clawgard.Api.World.{World, Handler, query}

-- golang.org/x/crypto/bcrypt: does the key match the stored hash?
abbrev pub Bcrypt : Type 0
Bcrypt = String → String → Bool

unfoldable pub verify_api_key : Bcrypt → String → String → Bool
verify_api_key matches hash key = not (hash == "" || key == "") && matches hash key

-- The first live buddy whose hash the key matches.
unfoldable pub first_match : Bcrypt → String → List Buddy → Option Buddy
unfolding verify_api_key
first_match matches raw [] = none
first_match matches raw (b ∷ bs) =
    if verify_api_key matches b.api_key_hash raw then some b else first_match matches raw bs

abbrev pub matched : Bcrypt → String → Result Error (List Buddy) → Option Buddy
matched matches raw (ok bs) = first_match matches raw bs
matched matches raw (err e) = none

unfoldable pub lookup_buddy_by_api_key : Bcrypt → String → Handler (Option Buddy)
unfolding first_match
lookup_buddy_by_api_key matches raw = do r ← query list_all; pure (matched matches raw r)

abbrev pub or_unauthorized : {A : Type 0} → Option A → String → Handler A
or_unauthorized none msg = leave (write_error 401 "unauthorized" (says msg))
or_unauthorized (some a) msg = pure a

abbrev pub register : ℕ → ℕ → Handler ℕ
register buddy conn w =
    let (gen, reg) = register_buddy buddy conn w.reg in
    (ok gen, record w { reg = reg; wires = put conn [] w.wires })

-- `websocket.Accept`: `none` if it upgrades the connection, or the response that it has written.
abbrev pub Accept : Type 0
Accept = Option Response

abbrev pub upgraded : Accept → Handler (Unit {0})
upgraded none = pure tt
upgraded (some r) = leave r

-- Up to the start of the loops: the buddy, and the generation that its `unregister` captures.
unfoldable pub connect : Bcrypt → Accept → ℕ → String → Handler (Buddy × ℕ)
unfolding lookup_buddy_by_api_key
connect matches accept conn authz = do
  raw ← or_unauthorized (strip_prefix "Bearer " authz) "missing api key"
  found ← lookup_buddy_by_api_key matches raw
  buddy ← or_unauthorized found "invalid api key"
  upgraded accept
  gen ← register buddy.id conn
  query (touch_last_seen buddy.id)
  pure (buddy, gen)

abbrev pub is_kept : String → Bool
is_kept type = type == "answer" || type == "clarification_request" || type == "close"

abbrev pub content_of : OutFrame → String
content_of f = if f.type == "close" && f.content == "" then f.reason else f.content

abbrev pub ends_thread : String → Bool
ends_thread type = type == "answer" || type == "close"

abbrev pub reason_of : OutFrame → String
reason_of f =
    if f.type == "close" then (if f.reason == "" then "buddy_closed" else f.reason) else "answered"

abbrev pub from_buddy : ℕ → OutFrame → NewMessage
from_buddy id f = record { thread_id = id; role = "buddy"; type = f.type; content = content_of f }

abbrev pub deliver : OutFrame → Handler (Unit {0})
deliver f w = (ok tt, record w { reg = deliver_out_frame f w.reg })

-- The frame's message is stored, and an answer or a close ends the thread; errors are dropped.
unfoldable pub keep_frame : ℕ → OutFrame → Handler (Unit {0})
keep_frame id f = do
  query (append (from_buddy id f))
  if ends_thread f.type then (query (close id (reason_of f)) >> pure tt) else pure tt

unfoldable pub keep_parsed : Option ℕ → OutFrame → Handler (Unit {0})
unfolding keep_frame
keep_parsed none f = pure tt
keep_parsed (some id) f = keep_frame id f

unfoldable pub persist : Uuid → OutFrame → Handler (Unit {0})
unfolding keep_parsed
persist u f = if is_kept f.type then keep_parsed (u.parse f.thread_id) f else pure tt

-- One round of the read loop after a read that succeeded.
unfoldable pub on_message : Uuid → ℕ → Option OutFrame → Handler (Unit {0})
unfolding persist
on_message u buddy none = pure tt
on_message u buddy (some f) = do deliver f; persist u f; query (touch_last_seen buddy); pure tt

-- The deferred `unregister()`.
unfoldable pub disconnect : ℕ → ℕ → Handler (Unit {0})
disconnect buddy gen w = (ok tt, record w { reg = unregister buddy gen w.reg })

unfoldable pub read_loop : Uuid → ℕ → List (Option OutFrame) → Handler (Unit {0})
unfolding on_message
read_loop u buddy [] = pure tt
read_loop u buddy (m ∷ ms) = on_message u buddy m >> read_loop u buddy ms

-- A whole connection, from the handshake to the read that fails.
unfoldable pub handle_buddy_connect :
    Uuid → Bcrypt → Accept → ℕ → String → List (Option OutFrame) → Handler (Unit {0})
unfolding connect read_loop disconnect
handle_buddy_connect u matches accept conn authz messages = do
  (buddy, gen) ← connect matches accept conn authz
  read_loop u buddy.id messages
  disconnect buddy.id gen
