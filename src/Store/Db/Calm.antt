-- ===== src/Store/Db/Calm.antt =====
-- Statements while the schedule of outcomes is empty: each runs at once.
use clawgard.Prelude.{◌≡◌, refl, ap, ◌∙◌, []}
use clawgard.Exec.{Result, ok}
use clawgard.Store.Db.{
  Db, Error, Sql, statement, settle, pass_time, tick_outcome, works, refused, lost, Outcome,
}

pub pass_time-calm : (db : Db) → db.schedule ≡ [] → pass_time db ≡ db
pass_time-calm db e = rw e

settle-works : {A : Type 0} (db : Db) (x : Result Error A × Db) → settle works db x ≡ x
settle-works db (r, d) = refl

pub statement-calm :
    {A : Type 0} (body : Sql A) (db : Db) → db.schedule ≡ [] → statement body db ≡ body db
unfolding statement
statement-calm body db e =
    ap (λ (o : Outcome). settle o (pass_time db) (body (pass_time db))) (ap tick_outcome e)
    ∙ settle-works (pass_time db) (body (pass_time db))
    ∙ ap body (pass_time-calm db e)

settle-ok :
    {A : Type 0} (o : Outcome) (d : Db) (x : Result Error A × Db) (a : A) (db' : Db)
    → settle o d x ≡ (ok a, db')
    → x ≡ (ok a, db')
settle-ok works d (r, d') a db' h = h
settle-ok refused d (r, d') a db' h = cc
settle-ok lost d (r, d') a db' h = cc

-- Whatever happens to statements: one that gave a value has run.
pub statement-ok :
    {A : Type 0} (body : Sql A) (db db' : Db) (a : A)
    → statement body db ≡ (ok a, db')
    → body (pass_time db) ≡ (ok a, db')
unfolding statement
statement-ok body db db' a h = settle-ok (tick_outcome db.schedule) (pass_time db) _ a db' h
