-- ===== src/Impersonation/Lock.antt =====
-- apps/app/modules/impersonation/service/impersonation_lock.py over the Redis server: the key of the
-- active impersonation, and the lease that its worker renews. Times are whole seconds.
pub mod Claiming
use remote_connect_backend.Base.{
  ℕ, ◌+◌, ◌-◌, Bool, true, false, ◌&&◌, Option, none, some, is_some, [], if◌then◌else◌, ltb,
}
use remote_connect_backend.Base.Text.{Text, codes, ◌≐◌}
use remote_connect_backend.Base.Action.{Result, ok, raised, value_error, other}
use remote_connect_backend.Redis.{
  Redis, Value, raw, binding, last_enqueued, active, session, user_block,
}

-- Shut, so that the two keys are compared once.
unfoldable pub active_key : Text
active_key = codes "impersonation:active"

unfoldable pub lease_key : Text
lease_key = codes "impersonation:lease"

abbrev pub heartbeat : Value
heartbeat = raw (codes "1")

pub record ActiveImpersonation : Type 0 where
  pub impersonation_id : Text
  pub admin_user_id : ℕ
  pub target_user_id : ℕ
  pub started_at : ℕ
  pub ttl_seconds : ℕ

-- `json.dumps(asdict(active_impersonation))`
abbrev pub dumped : ActiveImpersonation → Value
dumped a = active a.impersonation_id a.admin_user_id a.target_user_id a.started_at a.ttl_seconds

-- `ActiveImpersonation(**json.loads(raw)) if raw else None`; any other document raises.
abbrev pub loaded : Option Value → Result (Option ActiveImpersonation)
loaded none = ok none
loaded (some (active id admin target started ttl)) = ok (
    some (record {
      impersonation_id = id;
      admin_user_id = admin;
      target_user_id = target;
      started_at = started;
      ttl_seconds = ttl;
    }))
loaded (some (raw [])) = ok none
loaded (some _) = raised value_error

-- What `try_claim_impersonation` returns where the script has claimed.
abbrev pub claimed :
    Result (Option ActiveImpersonation) → Result (Bool × Option ActiveImpersonation)
claimed (ok replaced) = ok (true, replaced)
claimed (raised e) = raised e

abbrev pub or_zero : Option ℕ → ℕ
or_zero none = 0
or_zero (some t) = t

-- `max(0, int(ttl_seconds - (time.time() - started_at)))`
unfoldable pub seconds_remaining : ℕ → ActiveImpersonation → ℕ
seconds_remaining now a = (a.ttl_seconds + a.started_at) - now

unfoldable pub is_expired : ℕ → ActiveImpersonation → Bool
is_expired now a = ltb (a.started_at + a.ttl_seconds) now

-- `lease` is IMPERSONATION_LEASE_SECONDS.
module _ (redis : Redis) (lease : ℕ) where
  open redis use {Server, get, life, set_ex, delete}

  unfoldable pub try_claim_impersonation :
      ActiveImpersonation → Server → Result (Bool × Option ActiveImpersonation) × Server
  try_claim_impersonation a s =
      if is_some (get s active_key) && is_some (get s lease_key) then (ok (false, none), s) else (
        claimed (loaded (get s active_key)),
        set_ex lease_key heartbeat lease (set_ex active_key (dumped a) a.ttl_seconds s),
      )

  unfoldable pub refresh_worker_heartbeat : Server → Server
  refresh_worker_heartbeat s = set_ex lease_key heartbeat lease s

  unfoldable pub is_worker_alive : Server → Bool
  is_worker_alive s = is_some (get s lease_key)

  unfoldable pub lease_seconds_remaining : Server → ℕ
  lease_seconds_remaining s = or_zero (life s lease_key)

  unfoldable pub check_and_refresh_worker_heartbeat : Server → Bool × Server
  check_and_refresh_worker_heartbeat s =
      if is_some (get s lease_key) then (true, set_ex lease_key heartbeat lease s) else (false, s)

  unfoldable pub get_active_impersonation : Server → Result (Option ActiveImpersonation)
  get_active_impersonation s = loaded (get s active_key)

  -- A document without the field has no id that fits, and a text that is no document raises.
  abbrev pub release_found : Text → Option Value → Server → Result Bool × Server
  release_found id none s = (ok false, s)
  release_found id (some (active i admin target started ttl)) s =
      if i ≐ id then (ok true, delete lease_key (delete active_key s)) else (ok false, s)
  release_found id (some (raw t)) s = (raised other, s)
  release_found id (some (binding k t)) s = (ok false, s)
  release_found id (some (last_enqueued t)) s = (ok false, s)
  release_found id (some (session t)) s = (ok false, s)
  release_found id (some (user_block t u)) s = (ok false, s)

  unfoldable pub release_impersonation : Text → Server → Result Bool × Server
  release_impersonation id s = release_found id (get s active_key) s
