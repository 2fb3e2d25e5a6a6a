-- ===== src/Api/World/Steps.antt =====
-- One step of a handler's block, by what its first action answers.
use clawgard.Prelude.{ℕ, ◌≡◌, refl, Bool, true, false, if◌then◌else◌, Option, none, some}
use clawgard.Exec.{Result, ok, err, pure, reads, guard, ◌>>=◌}
use clawgard.Store.Db.{Db, Error, Sql}
use clawgard.Router.Registry.{InFrame, Registry, send_question}
use clawgard.Api.Http.{Response}
use clawgard.Api.World.{World, Handler, query, attempt, or_refuse, send, write_frame}

module _ {A B : Type 0} (k : A → Handler B) (w : World) where
  pub attempt-ok :
      (m : Sql A) (f : Error → Response) (a : A) (db : Db)
      → m w.db ≡ (ok a, db)
      → (attempt m f >>= k) w ≡ k a (record w { db = db })
  unfolding attempt query ◌>>=◌
  attempt-ok m f a db e = rw e

  pub attempt-err :
      (m : Sql A) (f : Error → Response) (e : Error) (db : Db)
      → m w.db ≡ (err e, db)
      → (attempt m f >>= k) w ≡ (err (f e), record w { db = db })
  unfolding attempt query ◌>>=◌
  attempt-err m f e db h = rw h

  pub or_refuse-some :
      (o : Option A) (r : Response) (a : A) → o ≡ some a → (or_refuse o r >>= k) w ≡ k a w
  unfolding ◌>>=◌
  or_refuse-some o r a e = rw e

  pub reads-step : (f : World → A) → (reads f >>= k) w ≡ k (f w) w
  unfolding ◌>>=◌
  reads-step f = refl

  pub pure-step : (a : A) → (pure a >>= k) w ≡ k a w
  unfolding ◌>>=◌
  pure-step a = refl

  pub handler-step : (m : Handler A) (a : A) (v : World) → m w ≡ (ok a, v) → (m >>= k) w ≡ k a v
  unfolding ◌>>=◌
  handler-step m a v e = rw e

module _ {A B : Type 0} (k : Result Error A → Handler B) (w : World) where
  pub query-step :
      (m : Sql A) (r : Result Error A) (db : Db)
      → m w.db ≡ (r, db)
      → (query m >>= k) w ≡ k r (record w { db = db })
  unfolding query ◌>>=◌
  query-step m r db e = rw e

module _ {B : Type 0} (k : Unit {0} → Handler B) (w : World) where
  pub guard-true : (b : Bool) (r : Response) → b ≡ true → (guard b r >>= k) w ≡ k tt w
  unfolding ◌>>=◌
  guard-true b r e = rw e

  pub guard-false : (b : Bool) (r : Response) → b ≡ false → (guard b r >>= k) w ≡ (err r, w)
  unfolding ◌>>=◌
  guard-false b r e = rw e

module _ {B : Type 0} (k : Bool → Handler B) (w : World) where
  pub send-online :
      (buddy : ℕ) (f : InFrame) (conn : ℕ) (reg : Registry)
      → send_question buddy f w.reg ≡ (some conn, reg)
      → (send buddy f >>= k) w ≡ k true (write_frame conn f (record w { reg = reg }))
  unfolding send ◌>>=◌
  send-online buddy f conn reg e = rw e

  pub send-offline :
      (buddy : ℕ) (f : InFrame) (reg : Registry)
      → send_question buddy f w.reg ≡ (none, reg)
      → (send buddy f >>= k) w ≡ k false (record w { reg = reg })
  unfolding send ◌>>=◌
  send-offline buddy f reg e = rw e

-- `if b { m }`, where `m` returns.
pub skips :
    {B : Type 0} (k : Unit {0} → Handler B) (w : World) (b : Bool) (m : Handler (Unit {0}))
    → b ≡ false
    → ((if b then m else pure tt) >>= k) w ≡ k tt w
unfolding ◌>>=◌
skips k w b m e = rw e refl
