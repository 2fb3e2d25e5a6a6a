-- ===== src/Api/Safety/Devices.antt =====
-- The handlers of server/internal/api/oidc_device.go, as steps of the world.
use clawgard.Prelude.{
  ℕ, ◌≡◌, refl, inl, inr, String, Option, List, arith, exists, find?, Bool-cases, Option-cases,
  ◌||◌, ◌==◌, Comparable-String, same_bytes,
}
use clawgard.Exec.Respects.{Respects-atom}
use clawgard.Store.Db.{Db, DeviceCode, statement}
use clawgard.Store.History.{
  Grows-refl, ThreadAdvances, ThreadAdvances-refl, BuddyAdvances, BuddyAdvances-refl, Evolves,
  Evolves-order,
}
use clawgard.Store.History.Statements.{Sound, statement-Sound}
use clawgard.Api.Device.{
  insert_code, delete_code, select_code, drop_expired, handle_device_initiate, handle_device_token,
}
use clawgard.Api.Safety.{IsSafe, safe_rules}

-- A change of the device codes alone.
codes-Evolves : (db : Db) (cs : List DeviceCode) → Evolves db (record db { codes = cs })
codes-Evolves db cs = record {
  advances = record {
    threads = Grows-refl ThreadAdvances ThreadAdvances-refl db.threads;
    buddies = Grows-refl BuddyAdvances BuddyAdvances-refl db.buddies;
    messages = Grows-refl (λ m n. n ≡ m) (λ m. refl) db.messages;
    clock = omega arith;
  };
  sound = λ s. record {
    threads = s.threads;
    unique = s.unique;
    messages = s.messages;
    modes = s.modes;
  };
}

insert_code-Sound : (code : String) (user : List ℕ) → Sound (statement (insert_code code user))
unfolding insert_code
insert_code-Sound code user = statement-Sound _ (
    Respects-atom _ (λ db.
      elim (Bool-cases
        (exists (λ c. c.device_code == code || same_bytes c.user_code user) db.codes)) [
          | inl used ↦ rw used (Evolves-order.same db)
          | inr fresh ↦ rw fresh (codes-Evolves db _)
        ]))

select_code-Sound : (code : String) → Sound (statement (select_code code))
unfolding select_code
select_code-Sound code = statement-Sound _ (
    Respects-atom _ (λ db. elim (Option-cases (find? (λ c. c.device_code == code) db.codes)) [
      | inl e ↦ rw (e, select_code) (Evolves-order.same db)
      | inr (c, e) ↦ rw (e, select_code) (Evolves-order.same db)
    ]))

delete_code-Sound : (code : String) → Sound (statement (delete_code code))
unfolding delete_code
delete_code-Sound code = statement-Sound _ (Respects-atom _ (λ db. codes-Evolves db _))

ruleset device_rules = (safe_rules, insert_code-Sound, select_code-Sound, delete_code-Sound)

pub handle_device_initiate-IsSafe :
    (uri code : String) (user : List ℕ) → IsSafe (handle_device_initiate uri code user)
unfolding handle_device_initiate
handle_device_initiate-IsSafe uri code user = search device_rules depth 10

drop_expired-IsSafe : (code : String) → IsSafe (drop_expired code)
unfolding drop_expired
drop_expired-IsSafe code = search device_rules depth 10

pub handle_device_token-IsSafe :
    (fresh : String) (body : Option String) → IsSafe (handle_device_token fresh body)
unfolding handle_device_token
handle_device_token-IsSafe fresh body = search (device_rules, drop_expired-IsSafe) depth 20
