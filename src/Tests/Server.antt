-- ===== src/Tests/Server.antt =====
-- Examples for the API of the server.
use clawgard.Api.Hatchling.Ending.{Ended, hatchling_close_thread_lem}
use clawgard.Prelude.{◌+◌}
use clawgard.Prelude.{
  String, Option, ◌≡◌, ◌≤◌, refl, true, false, ◌&&◌, none, some, [], ◌∷◌, arith, ◌==◌, Comparable-ℕ,
  Comparable-String,
}
use clawgard.Assoc.{lookup}
use clawgard.Exec.{ok}
use clawgard.Store.Db.{Db}
use clawgard.Store.Filter.{list_with_filter}
use clawgard.Store.Threads.{scan_thread}
use clawgard.Store.Messages.Calm.{appended}
use clawgard.Api.Http.{respond, empty}
use clawgard.Api.World.{serve}
use clawgard.Api.Hatchling.{
  OpenThreadReq, not_yours, hatchling_get_thread, hatchling_close_thread,
  hatchling_post_clarification, hatchling_open_thread,
}
use clawgard.Api.Hatchling.Access.{stranger_refused}
use clawgard.Api.Hatchling.Answered.{answer_to, answered_lem}
use clawgard.Api.BuddyWs.{on_message}
use clawgard.Api.Http.{thread}
use clawgard.Api.Hatchling.Opening.{asked_or_offline, hatchling_open_thread_lem}
use clawgard.Api.Hatchling.{ticked, done}
use clawgard.Api.Hatchling.Polling.{hatchling_get_thread-bounded}
use clawgard.Api.Hatchling.Turns.{exhausted, capped_db, clarification_refused, clarification_sent}
use clawgard.Store.Db.{statement}
use clawgard.Store.Messages.{NewMessage}
use clawgard.Store.Buddies.{scan_buddy, list_all, touch_last_seen, visible}
use clawgard.Store.Filter.{list_query, where_clause, build_filter_clause, all_hold, holds}
use clawgard.Api.World.{World}
use clawgard.Router.Registry.{OutFrame, ensure_waiter, register_buddy}
use clawgard.Exec.{◌>>=◌}
use clawgard.Prelude.{strip_prefix}
use clawgard.Api.Acl.{acl_allows}
use clawgard.Api.Acl.Listing.{visible_lem}
use clawgard.Api.World.{write_frame, query}
use clawgard.Api.BuddyWs.{
  Bcrypt, connect, persist, lookup_buddy_by_api_key, first_match, verify_api_key,
}
use clawgard.Api.BuddyWs.Keys.{Connected, connect-Connected}
use clawgard.Api.BuddyWs.Persisted.{with_message, persist_lem}
use clawgard.Api.Admin.{ThreadQuery, parse_thread_filter}
use clawgard.Api.Admin.Pages.{list_with_filter-page}
use clawgard.Tests.Fixtures.{
  differ, registry, keys, db, unique, world, buddy_row, open_row, full_row, ended_row, entry, ana,
  bob,
}

abbrev question : OpenThreadReq
question = record { buddy_id = "z"; question = "why" }

stranger_refused_example :
    (serve (hatchling_get_thread keys bob "a" (some 5) none []) world ≡ (not_yours, world))
    × (serve (hatchling_close_thread keys bob "a") world ≡ (not_yours, world))
    × (serve (hatchling_post_clarification keys bob "a" (some "more")) world ≡ (not_yours, world))
stranger_refused_example =
    stranger_refused keys bob "a" 10 open_row world (some 5) none [] "more" refl refl refl
      (differ "ana@x.org" "bob@x.org" refl) refl (λ e. cc)

hatchling_open_thread_lem_example :
    serve (hatchling_open_thread keys bob (some question)) world
    ≡ asked_or_offline keys
        (record { email = "bob@x.org"; groups = "staff" ∷ []; admin = false; buddy_id = "" })
        7
        "why"
        (some entry)
        world
unfolding acl_allows lookup
hatchling_open_thread_lem_example =
    hatchling_open_thread_lem keys bob question 7 buddy_row world refl unique refl refl refl
      (λ e. cc) refl

clarification_refused_example :
    serve (hatchling_post_clarification keys ana "b" (some "more")) world
    ≡ (exhausted, record world { db = capped_db 11 db })
clarification_refused_example =
    clarification_refused keys ana "b" "more" 11 full_row world refl refl refl refl (λ e. cc) unique
      refl

abbrev more : NewMessage
more = record { thread_id = 10; role = "hatchling"; type = "clarification"; content = "more" }

abbrev bumped_db : Db
bumped_db = record db {
  threads = record open_row { turns = 2; last_activity_at = 100 } ∷ full_row ∷ ended_row ∷ [];
}

clarification_sent_example :
    serve (hatchling_post_clarification keys ana "a" (some "more")) world ≡ (
      respond 202 empty,
      write_frame 1
          (record {
            type = "clarification";
            thread_id = "a";
            content = "more";
            asker_email = "ana@x.org";
          })
          (record world { db = appended more bumped_db; reg = (ensure_waiter "a" registry).1 }),
    )
unfolding lookup
clarification_sent_example =
    clarification_sent keys ana "a" "more" 10 open_row world refl refl refl refl (λ e. cc) unique
      refl (omega arith) refl

persist_lem_example :
    let frame : String → OutFrame =
      λ type. record { type = type; thread_id = "a"; content = ""; reason = "no idea" } in
    let kept : String → String → Option String → World =
      λ type text end. record world { db = with_message 10 type text end db } in
    (persist keys (frame "answer") world ≡ (ok tt, kept "answer" "" (some "answered")))
    × (persist keys (frame "clarification_request") world
        ≡ (ok tt, kept "clarification_request" "" none))
    × (persist keys (frame "close") world ≡ (ok tt, kept "close" "no idea" (some "no idea")))
persist_lem_example = persist_lem keys "a" "" "no idea" 10 world refl refl refl refl

abbrev matches : Bcrypt
matches hash key = hash == "hash" && key == "key"

connect-Connected_example :
    Connected matches 3 "Bearer key"
      (scan_buddy buddy_row)
      (connect matches none 3 "Bearer key" world).1
unfolding connect lookup_buddy_by_api_key list_all statement first_match verify_api_key
    touch_last_seen query ◌>>=◌ strip_prefix register_buddy
connect-Connected_example =
    connect-Connected matches none 3 "Bearer key" (scan_buddy buddy_row) 2 world
      (connect matches none 3 "Bearer key" world).1 refl

visible_lem_example : visible "bob@x.org" ("staff" ∷ []) buddy_row ≡ true
unfolding acl_allows
visible_lem_example =
    visible_lem
      (record { email = "bob@x.org"; groups = "staff" ∷ []; admin = false; buddy_id = "" })
      buddy_row refl

abbrev first_page : ThreadQuery
first_page = record {
  buddy_id = "z";
  hatchling_email = "";
  from = none;
  to = none;
  page_size = some 1000;
  page = some 1;
}

list_with_filter-page_example : (1 ≤ 200) × (3 ≤ 200) × (200 ≤ 200)
unfolding parse_thread_filter list_with_filter list_query where_clause build_filter_clause all_hold
    holds statement
list_with_filter-page_example =
    list_with_filter-page keys first_page db db
      (scan_thread open_row ∷ scan_thread full_row ∷ scan_thread ended_row ∷ []) refl

-- The longest wait, with two ticks of 250 ms.
hatchling_get_thread-bounded_example :
    (serve
      (hatchling_get_thread keys ana "a"
        (some 55)
        none
        (ticked 250_000_000 ∷ ticked 250_000_000 ∷ done ∷ []))
      world).1.db.now
    ≤ 100 + 55_250_000_000
hatchling_get_thread-bounded_example =
    hatchling_get_thread-bounded keys ana "a" (some 55) none
      (ticked 250_000_000 ∷ ticked 250_000_000 ∷ done ∷ []) 250_000_000 world refl
      (omega arith, (omega arith, (tt, tt)))

hatchling_close_thread_lem_example :
    Ended keys ana "a" 10 open_row world refl refl refl "b"
      (some entry)
      (serve (hatchling_close_thread keys ana "a") world)
unfolding lookup
hatchling_close_thread_lem_example =
    hatchling_close_thread_lem keys ana "a" 10 open_row world refl refl refl "b" refl

answered_lem_example :
    let after = (on_message keys 7 (some (answer_to "a" "yes" "")) world).1 in
    serve (hatchling_get_thread keys ana "a" (some 30) (some 50) (done ∷ [])) after ≡ (
      respond 200 (
          thread (record {
            id = "a";
            buddy_id = keys.print 7;
            hatchling_email = "ana@x.org";
            status = "closed";
            turns = 1;
            created_at = 20;
            closed_at = some 100;
            messages = some (
                record {
                  id = 100;
                  thread_id = 10;
                  role = "buddy";
                  type = "answer";
                  content = "yes";
                  created_at = 100;
                }
                ∷ []);
          })),
      after,
    )
answered_lem_example =
    answered_lem keys 7 10 "a" "yes" "" open_row world ana "a" (some 30) (some 50) (done ∷ []) refl
      refl refl refl refl refl refl refl tt tt (omega arith)
