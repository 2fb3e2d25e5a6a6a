-- ===== src/Server/Starting.antt =====
-- A server that `New` of server/internal/server/server.go returns.
use clawgard.Prelude.{
  ◌≡◌, refl, subst, inl, inr, Bool-cases, String, Bool, true, false, not, ◌&&◌, ◌||◌, leb,
  byte_length, if◌then◌else◌, some, List, [], ◌==◌, Comparable-String,
}
use clawgard.Exec.{Exec, Result, ok, err, resume, guard, pure, ◌>>=◌}
use clawgard.Store.Migrate.{MigrateError, Schema, MigrationFs, sql_files, migrate}
use clawgard.Store.Migrate.Applied.{missing, Distinct}
use clawgard.Store.Migrate.Runs.{Migrated, migrate_lem}
use clawgard.Config.{Config}
use clawgard.Server.{
  Server, StartError, listen, short_secret, new_session_signer, has_signer, Surroundings,
  or_start_error, built, new_server,
}
use clawgard.Server.Routes.{IsWiredFor, routes-IsWiredFor}

-- The parts of `New` gave what it returns.
started :
    (fs : MigrationFs) (env : Surroundings) (cfg : Config) (s t : Schema) (srv : Server)
    → new_server fs env cfg s ≡ (ok srv, t)
    → (migrate fs s ≡ (ok tt, t))
      × (srv ≡ built env cfg)
      × ((cfg.session_secret == "" || leb 32 (byte_length cfg.session_secret)) ≡ true)
unfolding new_server new_session_signer ◌>>=◌
started fs env cfg s t srv h = elim (Bool-cases env.opens) [
  | inr fails ↦ absurd (not_open (rw (fails, guard) at h))
  | inl opens ↦ by_migrate (migrate fs s) (rw (opens, guard) at h)
]
  where
    not_open :
        {e : StartError} → ◌≡◌ {A = Result StartError Server × Schema} (err e, s) (ok srv, t) → ⊥
    not_open p = cc

    Started : Result MigrateError (Unit {0}) × Schema → Type 0
    Started x =
        (x ≡ (ok tt, t))
        × (srv ≡ built env cfg)
        × ((cfg.session_secret == "" || leb 32 (byte_length cfg.session_secret)) ≡ true)

    by_listen :
        (b : Bool) (u : Unit {0}) (d : Schema)
        → (cfg.session_secret == "" || leb 32 (byte_length cfg.session_secret)) ≡ true
        → resume (guard b listen d).0 (λ _. pure (built env cfg)) (guard b listen d).1 ≡ (ok srv, t)
        → Started (ok u, d)
    by_listen true u d long p = (cc, cc, long)
    by_listen false u d long p = absurd (cc)

    by_signer :
        (empty long : Bool) (u : Unit {0}) (d : Schema)
        → (cfg.session_secret == "") ≡ empty
        → leb 32 (byte_length cfg.session_secret) ≡ long
        → let m : Exec StartError Schema (Unit {0}) =
            if not empty then guard long short_secret else pure tt in
          resume (m d).0 (λ _. guard env.listens listen >>= λ _. pure (built env cfg)) (m d).1
            ≡ (ok srv, t)
          → Started (ok u, d)
    by_signer true long u d e l p = by_listen env.listens u d (rw e refl) p
    by_signer false true u d e l p = by_listen env.listens u d (rw (e, l) refl) p
    by_signer false false u d e l p = absurd (cc)

    by_migrate :
        (x : Result MigrateError (Unit {0}) × Schema)
        → resume
            (or_start_error x).0
            (λ _.
              (if has_signer cfg then new_session_signer cfg.session_secret else pure tt) >>= λ _.
              guard env.listens listen >>= λ _. pure (built env cfg))
            (or_start_error x).1
          ≡ (ok srv, t)
        → Started x
    by_migrate (err e, d) p = absurd (cc)
    by_migrate (ok u, d) p =
        by_signer (cfg.session_secret == "") (leb 32 (byte_length cfg.session_secret)) u d refl refl
          p

-- A server that `New` returns has gone through its migrations without an error: every .sql file has
-- its row, and no transaction is open. Its session secret, if it has one, has at least 32 bytes. It registers the login of the mock provider exactly when a
-- session secret is set, the provider's mode is "mock" and the development mode is on; the login and
-- callback of a real provider exactly when a session secret, a client and a token endpoint are
-- set and the mock is not; and every handler behind exactly the middlewares that it needs: those of the
-- hatchlings behind the check of tokens, those of the administrators behind both of theirs, and all
-- of them behind the request id, the client's address and the recovery from panics.
pub new_server_lem :
    (fs : MigrationFs) (entries : List String) (env : Surroundings) (cfg : Config) (s t : Schema)
    (srv : Server)
    → fs.entries ≡ some entries
    → Distinct entries
    → s.pending ≡ []
    → new_server fs env cfg s ≡ (ok srv, t)
    → (missing t.done (sql_files entries) ≡ [])
      × (t.pending ≡ [])
      × ((cfg.session_secret == "" || leb 32 (byte_length cfg.session_secret)) ≡ true)
      × IsWiredFor
          (not (cfg.session_secret == ""))
          (cfg.idp_mode == "mock" && cfg.dev_mode)
          (not (cfg.oidc_client_id == "") && not (cfg.oidc_token_url == ""))
          srv.routes
unfolding new_server
new_server_lem fs entries env cfg s t srv listed distinct clean h =
    let (ran, made, long) = started fs env cfg s t srv h in
    let m : Migrated fs (sql_files entries) s (ok tt, t) =
      subst (Migrated fs (sql_files entries) s) ran
        (migrate_lem fs entries s listed distinct clean) in
    (m.rows refl, m.settled, long, rw made (routes-IsWiredFor cfg))
