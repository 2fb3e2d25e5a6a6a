-- ===== src/Api/World/Timing.antt =====
-- Bounds on the time that a handler takes, while statements run at once.
use clawgard.Prelude.{
  ℕ, ◌≤◌, ◌≡◌, sym, subst, Bool, true, false, Option, none, some, Comparable-ℕ, [], arith,
}
use clawgard.Exec.{Result, ok, err, pure, resume, guard, ◌>>=◌}
use clawgard.Store.Db.{Db, Error, Sql}
use clawgard.Api.Http.{Response}
use clawgard.Api.World.{World, Handler, query, attempt, or_refuse, or_leave}

-- An action that is over by a time, with statements that still run.
abbrev pub EndsBy : {A : Type 0} → ℕ → A × World → Type 0
EndsBy t (r, w) = (w.db.schedule ≡ []) × (w.db.now ≤ t)

-- What follows an action in time is in time if it takes none.
unfoldable pub Keeps : {A : Type 0} → ℕ → Handler A → Type 0
Keeps t m = (w : World) → w.db.schedule ≡ [] → w.db.now ≤ t → EndsBy t (m w)

pub EndsBy-bind :
    {A B : Type 0} (t : ℕ) (m : Handler A) (k : A → Handler B) (w : World)
    → EndsBy t (m w)
    → ((a : A) → Keeps t (k a))
    → EndsBy t ((m >>= k) w)
unfolding ◌>>=◌ Keeps
EndsBy-bind {A} {B} t m k w first rest = by_result (m w) first
  where
    by_result : (x : Result Response A × World) → EndsBy t x → EndsBy t (resume {B = B} x.0 k x.1)
    by_result (ok a, v) h = rest a v h.0 h.1
    by_result (err r, v) h = h

module _ (t : ℕ) where
  pub Keeps-bind :
      {A B : Type 0} (m : Handler A) (k : A → Handler B)
      → Keeps t m
      → ((a : A) → Keeps t (k a))
      → Keeps t (m >>= k)
  unfolding Keeps
  Keeps-bind m k h rest w calm early = EndsBy-bind t m k w (h w calm early) rest

  pub Keeps-pure : {A : Type 0} (a : A) → Keeps t (pure a)
  unfolding Keeps
  Keeps-pure a w calm early = (calm, early)

  pub Keeps-or_refuse : {A : Type 0} (o : Option A) (r : Response) → Keeps t (or_refuse o r)
  unfolding Keeps
  Keeps-or_refuse none r w calm early = (calm, early)
  Keeps-or_refuse (some a) r w calm early = (calm, early)

  pub Keeps-guard : (b : Bool) (r : Response) → Keeps t (guard b r)
  unfolding Keeps
  Keeps-guard true r w calm early = (calm, early)
  Keeps-guard false r w calm early = (calm, early)

  pub Keeps-or_leave :
      {A : Type 0} (f : Error → Response) (r : Result Error A) → Keeps t (or_leave f r)
  unfolding Keeps
  Keeps-or_leave f (ok a) w calm early = (calm, early)
  Keeps-or_leave f (err e) w calm early = (calm, early)

  -- A read of the store.
  pub Keeps-query :
      {A : Type 0} (m : Sql A) → ((db : Db) → db.schedule ≡ [] → (m db).1 ≡ db) → Keeps t (query m)
  unfolding Keeps query
  Keeps-query m reads_only w calm early =
      subst (λ (d : Db). (d.schedule ≡ []) × (d.now ≤ t)) (sym (reads_only w.db calm)) (calm, early)

  pub Keeps-attempt :
      {A : Type 0} (m : Sql A) (f : Error → Response)
      → ((db : Db) → db.schedule ≡ [] → (m db).1 ≡ db)
      → Keeps t (attempt m f)
  unfolding attempt
  Keeps-attempt m f reads_only =
      Keeps-bind (query m) _ (Keeps-query m reads_only) (Keeps-or_leave f)

-- From a time on, over by another one.
unfoldable pub Within : {A : Type 0} → ℕ → ℕ → Handler A → Type 0
Within s t m = (w : World) → w.db.schedule ≡ [] → w.db.now ≤ s → EndsBy t (m w)

module _ {A B : Type 0} (s t : ℕ) (m : Handler A) (k : A → Handler B) where
  pub Within-before : s ≤ t → Keeps s m → ((a : A) → Within s t (k a)) → Within s t (m >>= k)
  unfolding Within Keeps ◌>>=◌
  Within-before le first rest w calm early = by_result (m w) (first w calm early)
    where
      by_result : (x : Result Response A × World) → EndsBy s x → EndsBy t (resume {B = B} x.0 k x.1)
      by_result (ok a, v) h = rest a v h.0 h.1
      by_result (err r, v) h = (h.0, omega (arith, h.1))

  pub Within-after : Within s t m → ((a : A) → Keeps t (k a)) → Within s t (m >>= k)
  unfolding Within
  Within-after first rest w calm early = EndsBy-bind t m k w (first w calm early) rest
