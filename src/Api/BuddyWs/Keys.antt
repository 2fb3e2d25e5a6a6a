-- ===== src/Api/BuddyWs/Keys.antt =====
-- Who may connect as a buddy, in server/internal/api/buddy_ws.go.
use clawgard.Prelude.{
  Comparable-ℕ, ℕ, ◌≡◌, ◌≢◌, refl, sym, ap, ◌∙◌, subst, String, true, Option, none, some, List, [],
  ◌∷◌, arith, nat_eq_iff, eq_iff, Comparable-String, strip_prefix, Bool-cases, inl, inr,
}
use clawgard.Exec.{Result, ok, err, pure, ◌>>=◌, ◌>>◌}
use clawgard.Store.Db.{Error}
use clawgard.Api.Http.{Response}
use clawgard.Assoc.{lookup, lookup-put}
use clawgard.Router.Registry.{Registry, BuddyEntry, register_buddy}
use clawgard.Api.World.{World, Handler, query}
use clawgard.Store.Buddies.{Buddy, list_all, touch_last_seen}
use clawgard.Api.BuddyWs.{
  Accept, upgraded, or_unauthorized, register, connect, lookup_buddy_by_api_key, matched, Bcrypt,
  verify_api_key, first_match,
}

-- A key that is not empty, and whose hash is one of the buddy's.
abbrev pub Opens : Bcrypt → String → Buddy → Type 0
Opens matches raw b = (raw ≢ "") × (b.api_key_hash ≢ "") × (matches b.api_key_hash raw ≡ true)

first_match-Opens :
    (matches : Bcrypt) (raw : String) (bs : List Buddy) (b : Buddy)
    → first_match matches raw bs ≡ some b
    → Opens matches raw b
unfolding first_match verify_api_key
first_match-Opens matches raw [] b h = cc
first_match-Opens matches raw (x ∷ xs) b h =
    elim (Bool-cases (verify_api_key matches x.api_key_hash raw)) [
      | inl hit ↦
          let same : x ≡ b = ground arith in
          subst (Opens matches raw) same
            (ground (arith, eq_iff raw ""), ground (arith, eq_iff x.api_key_hash ""), ground arith)
      | inr miss ↦ first_match-Opens matches raw xs b (ground arith)
    ]

-- From the buddy that was found on.
abbrev after_match : Accept → ℕ → Option Buddy → Handler (Buddy × ℕ)
after_match accept conn found = do
  buddy ← or_unauthorized found "invalid api key"
  upgraded accept
  gen ← register buddy.id conn
  query (touch_last_seen buddy.id)
  pure (buddy, gen)

-- A buddy, and its registration under the connection.
abbrev pub Connected : Bcrypt → ℕ → String → Buddy → World → Type 0
Connected matches conn authz b w =
    (raw : String) × (strip_prefix "Bearer " authz ≡ some raw)
    × Opens matches raw b
    × (entry : BuddyEntry) × (lookup b.id w.reg.buddies ≡ some entry)
    × (entry.writer ≡ conn)

abbrev buddy_of : Result Response (Buddy × ℕ) × World → Option Buddy
buddy_of (ok (b, gen), w) = some b
buddy_of (err e, w) = none

abbrev reg_after : ℕ → World → Option Buddy → Registry
reg_after conn w none = w.reg
reg_after conn w (some b) = (register_buddy b.id conn w.reg).1

after_match-found :
    (accept : Accept) (conn : ℕ) (found : Option Buddy) (b : Buddy) (gen : ℕ) (w w' : World)
    → after_match accept conn found w ≡ (ok (b, gen), w')
    → (found ≡ some b) × (w'.reg ≡ reg_after conn w found)
unfolding ◌>>=◌ query
after_match-found accept conn none b gen w w' h = cc
after_match-found (some r) conn (some x) b gen w w' h = cc
after_match-found none conn (some x) b gen w w' h =
    (ap buddy_of h, sym (ap (λ (p : Result Response (Buddy × ℕ) × World). p.1.reg) h))

matched-Opens :
    (matches : Bcrypt) (raw : String) (r : Result Error (List Buddy)) (b : Buddy)
    → matched matches raw r ≡ some b
    → Opens matches raw b
matched-Opens matches raw (ok bs) b h = first_match-Opens matches raw bs b h
matched-Opens matches raw (err e) b h = cc

registered :
    (conn : ℕ) (b : Buddy) (w : World)
    → lookup b.id (reg_after conn w (some b)).buddies
      ≡ some (record { writer = conn; gen = (register_buddy b.id conn w.reg).0 })
unfolding register_buddy
registered conn b w = lookup-put b.id b.id _ w.reg.buddies ∙ ground (arith, nat_eq_iff b.id b.id)

connected :
    (matches : Bcrypt) (accept : Accept) (conn : ℕ) (authz raw : String) (b : Buddy) (gen : ℕ)
    (w v w' : World) (r : Result Error (List Buddy))
    → strip_prefix "Bearer " authz ≡ some raw
    → after_match accept conn (matched matches raw r) v ≡ (ok (b, gen), w')
    → Connected matches conn authz b w'
connected matches accept conn authz raw b gen w v w' r bearer h =
    let (found, reg) = after_match-found accept conn (matched matches raw r) b gen v w' h in
    (
      raw,
      bearer,
      matched-Opens matches raw r b found,
      record { writer = conn; gen = (register_buddy b.id conn v.reg).0 },
      ap (λ (g : Registry). lookup b.id g.buddies) (reg ∙ ap (reg_after conn v) found)
          ∙ registered conn b v,
      refl,
    )

-- Whoever is connected as a buddy sent, as a bearer key, one that is not empty and that bcrypt matches
-- with the buddy's stored hash; and the registry then hands the buddy's frames to this connection.
pub connect-Connected :
    (matches : Bcrypt) (accept : Accept) (conn : ℕ) (authz : String) (b : Buddy) (gen : ℕ)
    (w w' : World)
    → connect matches accept conn authz w ≡ (ok (b, gen), w')
    → Connected matches conn authz b w'
unfolding connect lookup_buddy_by_api_key ◌>>=◌ query
connect-Connected matches accept conn authz b gen w w' h =
    by_header (strip_prefix "Bearer " authz) refl h
  where
    by_header :
        (o : Option String)
        → strip_prefix "Bearer " authz ≡ o
        → (or_unauthorized o "missing api key" >>= λ raw.
              lookup_buddy_by_api_key matches raw >>= after_match accept conn)
            w
          ≡ (ok (b, gen), w')
        → Connected matches conn authz b w'
    by_header none e h = cc
    by_header (some raw) e h =
        connected matches accept conn authz raw b gen w _ w' (list_all w.db).0 e h
