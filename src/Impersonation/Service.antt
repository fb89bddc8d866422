-- ===== src/Impersonation/Service.antt =====
-- apps/app/modules/impersonation/service/impersonation_service.py. Times are whole seconds, and a new
-- id is an argument. `free` tells of each use of the worker's session whether its lock is got in time,
-- and `flush` what a flush of the session to the database comes to.
pub mod Ending
pub mod Starting
use remote_connect_backend.Base.{
  ℕ, ◌-◌, min, max, Bool, true, false, not, Option, none, some, is_some, List, [], ◌∷◌, ◌++◌,
  if◌then◌else◌, ◌==◌,
}
use remote_connect_backend.Base.Text.{Text, ◌≐◌}
use remote_connect_backend.Base.Int.{ℤ, ◌+ℤ◌}
use remote_connect_backend.Base.Action.{
  Exn, http, timeout_error, session_not_found, Result, Action, ok, raised, pure, raise, gets,
  modify, ◌>>=◌, ◌>>◌,
}
use remote_connect_backend.Redis.{Redis}
use remote_connect_backend.Users.{User, get_by_id}
use remote_connect_backend.Impersonation.Lock.{
  ActiveImpersonation, is_expired, seconds_remaining, try_claim_impersonation, is_worker_alive,
  lease_seconds_remaining, check_and_refresh_worker_heartbeat, get_active_impersonation,
  release_impersonation,
}
use remote_connect_backend.Impersonation.Holder.{
  SandboxRecord, Holder, start_session, has_session, use_session, end_session,
}
use remote_connect_backend.Impersonation.World.{
  Reason, expired, worker_crash_detected, request_error, force_ended_by_admin, explicit_logout,
  AuditFields, starts, ends, Message, state_changed, impersonation_gone, World, save_audit_entry,
  Summary, Info, on_server, on_holder, save_audit, send, drop_session, end_held, tell_gone, name_of,
  find_record, set_record,
}

-- The impersonation that a start asks for; its lifetime is between a second and the maximum.
abbrev pub new_impersonation : ℕ → ℕ → Text → ℕ → ℕ → ℕ → ActiveImpersonation
new_impersonation max_duration now id admin target ttl = record {
  impersonation_id = id;
  admin_user_id = admin;
  target_user_id = target;
  started_at = now;
  ttl_seconds = max 1 (min ttl max_duration);
}

module _ (redis : Redis) (lease : ℕ) where
  open redis use {Server}

  abbrev pub get_active : Action (World Server) (Option ActiveImpersonation)
  get_active w = (get_active_impersonation redis lease w.server, w)

  unfoldable pub end_impersonation :
      Bool → ℕ → ActiveImpersonation → Reason → Action (World Server) (Unit {0})
  end_impersonation free now a reason = do
    end_held free a.impersonation_id
    save_audit a.impersonation_id (ends now reason)
    released ← on_server (release_impersonation redis lease a.impersonation_id)
    send state_changed
    tell_gone reason a.impersonation_id

  abbrev pub stale_beside : Text → Option ActiveImpersonation → Server → Bool
  stale_beside held none s = true
  stale_beside held (some a) s =
      if a.impersonation_id ≐ held then not (is_worker_alive redis lease s) else true

  unfoldable pub is_session_stale : Option Text → Action (World Server) Bool
  is_session_stale none = pure false
  is_session_stale (some held) = do a ← get_active; gets (λ w. stale_beside held a w.server)

  -- `holder.end_session_if_stale(_is_session_stale)`
  abbrev pub end_if : Bool → Action (World Server) Bool
  end_if false = pure false
  end_if true = do drop_session; pure true

  unfoldable pub cleanup_stale_session : Bool → Action (World Server) Bool
  cleanup_stale_session false w = (ok false, w)
  cleanup_stale_session true w =
      if is_some w.holder.impersonation_session
      then (is_session_stale w.holder.impersonation_id >>= end_if) w
      else (ok false, w)

  unfoldable pub summary_of : ℕ → ActiveImpersonation → World Server → Summary
  summary_of now a w =
      let heartbeat = lease_seconds_remaining redis lease w.server in
      record {
        impersonation_id = a.impersonation_id;
        admin_user_id = a.admin_user_id;
        admin_name = name_of (get_by_id a.admin_user_id w.users);
        target_user_id = a.target_user_id;
        target_name = name_of (get_by_id a.target_user_id w.users);
        ttl_seconds = a.ttl_seconds;
        seconds_left = seconds_remaining now a;
        heartbeat_seconds_remaining = heartbeat;
        heartbeat_seconds_ago = lease - heartbeat;
      }

  unfoldable pub build_impersonation_info :
      ℕ → ActiveImpersonation → List SandboxRecord → Option ℕ → World Server → Info
  build_impersonation_info now a records started_at w = record {
    summary = summary_of now a w;
    transaction_started_at = started_at;
    sandbox_records = records;
  }

  -- Where the script has taken the place of an impersonation whose worker is gone.
  abbrev pub end_replaced : ℕ → Option ActiveImpersonation → Action (World Server) (Unit {0})
  end_replaced now none = pure tt
  end_replaced now (some a) = do
    save_audit a.impersonation_id (ends now worker_crash_detected)
    drop_session

  -- The part after the claim.
  unfoldable pub start_claimed :
      Bool
      → ℕ
      → ActiveImpersonation
      → Bool × Option ActiveImpersonation
      → Action (World Server) (Info × Bool)
  start_claimed free now a (false, replaced) = raise (http 409)
  start_claimed free now a (true, replaced) = do
    end_replaced now replaced
    (λ w. on_holder (start_session now a.impersonation_id w.sandbox) w)
    save_audit a.impersonation_id (starts a.admin_user_id a.target_user_id now)
    (records, started_at) ← on_holder (use_session free a.impersonation_id)
    gets (λ w. (build_impersonation_info now a records started_at w, is_some replaced))

  unfoldable pub start_as :
      Bool → Bool → ℕ → ActiveImpersonation → Action (World Server) (Info × Bool)
  start_as cleanup_free free now a = do
    cleaned ← cleanup_stale_session cleanup_free
    claim ← on_server (try_claim_impersonation redis lease a)
    start_claimed free now a claim

  -- The information, and whether an earlier impersonation was reclaimed.
  unfoldable pub start_impersonation :
      Bool → Bool → ℕ → ℕ → Text → ℕ → ℕ → ℕ → Action (World Server) (Info × Bool)
  start_impersonation cleanup_free free max_duration now id admin target ttl =
      start_as cleanup_free free now (new_impersonation max_duration now id admin target ttl)
