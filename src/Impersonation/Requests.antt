-- ===== src/Impersonation/Requests.antt =====
-- The requests of apps/app/modules/impersonation/service/impersonation_service.py that an admin makes
-- after the start. `free` and `flush` are as in Impersonation.Service.
pub mod Verifying
pub mod Lifecycle
mod Tests
use remote_connect_backend.Base.{
  ℕ, Bool, true, false, Option, none, some, List, ◌∷◌, ◌++◌, [], if◌then◌else◌, ◌==◌,
}
use remote_connect_backend.Base.Text.{Text, ◌≐◌}
use remote_connect_backend.Base.Int.{ℤ, ◌+ℤ◌}
use remote_connect_backend.Base.Action.{
  Exn, http, timeout_error, session_not_found, Result, Action, ok, raised, pure, raise, gets,
  modify, ◌>>=◌, ◌>>◌,
}
use remote_connect_backend.Redis.{Redis}
use remote_connect_backend.Users.{get_by_id}
use remote_connect_backend.Impersonation.Lock.{
  ActiveImpersonation, is_expired, seconds_remaining, is_worker_alive, lease_seconds_remaining,
  check_and_refresh_worker_heartbeat,
}
use remote_connect_backend.Impersonation.Holder.{SandboxRecord, use_session}
use remote_connect_backend.Impersonation.World.{
  expired, worker_crash_detected, request_error, force_ended_by_admin, explicit_logout, World,
  Summary, Info, name_of, on_server, on_holder, find_record, set_record,
}
use remote_connect_backend.Impersonation.Service.{
  get_active, end_impersonation, summary_of, build_impersonation_info,
}

module _ (redis : Redis) (lease : ℕ) where
  open redis use {Server}

  abbrev pub owned :
      Text → ℕ → Option ActiveImpersonation → Action (World Server) ActiveImpersonation
  owned id admin none w = (raised (http 404), w)
  owned id admin (some a) w =
      if a.impersonation_id ≐ id
      then (if a.admin_user_id == admin then (ok a, w) else (raised (http 403), w))
      else (raised (http 404), w)

  unfoldable pub check_ownership : Text → ℕ → Action (World Server) ActiveImpersonation
  check_ownership id admin = get_active redis lease >>= owned id admin

  -- The two ends of an impersonation that is over.
  unfoldable pub end_expired :
      {A : Type 0} → Bool → ℕ → ActiveImpersonation → Action (World Server) A
  end_expired free now a = do end_impersonation redis lease free now a expired; raise (http 410)

  unfoldable pub handle_session_vanished :
      {A : Type 0} → Bool → ℕ → ActiveImpersonation → Action (World Server) A
  handle_session_vanished free now a = do
    end_impersonation redis lease free now a worker_crash_detected
    raise (http 410)

  abbrev pub if_alive :
      Bool → ℕ → ActiveImpersonation → Bool → Action (World Server) ActiveImpersonation
  if_alive free now a true = pure a
  if_alive free now a false = handle_session_vanished free now a

  abbrev pub heartbeat_checked : Action (World Server) Bool
  heartbeat_checked w =
      let (alive, s) = check_and_refresh_worker_heartbeat redis lease w.server in
      (ok alive, record w { server = s })

  abbrev pub verified : Bool → ℕ → ActiveImpersonation → Action (World Server) ActiveImpersonation
  verified free now a w =
      if is_expired now a
      then end_expired free now a w
      else (heartbeat_checked >>= if_alive free now a) w

  unfoldable pub verify_impersonation :
      Bool → ℕ → Text → ℕ → Action (World Server) ActiveImpersonation
  verify_impersonation free now id admin = check_ownership id admin >>= verified free now

  -- `except`
  abbrev pub caught :
      {A : Type 0}
      → Action (World Server) A
      → (Exn → Action (World Server) A)
      → Action (World Server) A
  caught m handler w = let (r, w') = m w in elim r [ ok a ↦ (ok a, w') | raised e ↦ handler e w' ]

  abbrev pub end_failed :
      {A : Type 0} → Bool → ℕ → ActiveImpersonation → Exn → Action (World Server) A
  end_failed free now a e = do end_impersonation redis lease free now a request_error; raise e

  abbrev pub info_handler : Bool → ℕ → ActiveImpersonation → Exn → Action (World Server) Info
  info_handler free now a timeout_error = raise (http 503)
  info_handler free now a session_not_found = handle_session_vanished free now a
  info_handler free now a e = raise e

  abbrev pub update_handler : Bool → ℕ → ActiveImpersonation → Exn → Action (World Server) Info
  update_handler free now a timeout_error = raise (http 503)
  update_handler free now a session_not_found = handle_session_vanished free now a
  update_handler free now a e = end_failed free now a e

  abbrev pub adjust_handler : Bool → ℕ → ActiveImpersonation → Exn → Action (World Server) Info
  adjust_handler free now a timeout_error = raise (http 503)
  adjust_handler free now a session_not_found = handle_session_vanished free now a
  adjust_handler free now a (http status) = raise (http status)
  adjust_handler free now a e = end_failed free now a e

  -- The session that is held sees the changed records.
  abbrev pub rewritten :
      List SandboxRecord → Option (List SandboxRecord) → Option (List SandboxRecord)
  rewritten records none = none
  rewritten records (some s) = some records

  -- `session.flush()` after a change of the records that the session sees.
  abbrev pub flushed : Result (Unit {0}) → List SandboxRecord → Action (World Server) (Unit {0})
  flushed flush records w = (
    flush,
    record w {
      holder = record w.holder {
        impersonation_session = rewritten records w.holder.impersonation_session;
      };
    },
  )

  abbrev pub informed :
      ℕ → ActiveImpersonation → List SandboxRecord → Option ℕ → Action (World Server) Info
  informed now a records started_at =
      gets (λ w. build_impersonation_info redis lease now a records started_at w)

  -- The record is changed, or added where there is none.
  abbrev pub upserted : Text → ℤ → List SandboxRecord → List SandboxRecord
  upserted name value records = elim (find_record name records) [
    | none ↦ records ++ record { name = name; value = value } ∷ []
    | some r ↦ set_record name value records
  ]

  unfoldable pub update_record :
      Bool → ℕ → Text → ℕ → Text → ℤ → Result (Unit {0}) → Action (World Server) Info
  update_record free now id admin name value flush = do
    a ← verify_impersonation free now id admin
    caught
        (do
          (records, started_at) ← on_holder (use_session free id)
          flushed flush (upserted name value records)
          informed now a (upserted name value records) started_at)
        (update_handler free now a)

  abbrev pub adjusted :
      ℕ
      → ActiveImpersonation
      → Text
      → ℤ
      → Result (Unit {0})
      → Option ℕ
      → List SandboxRecord
      → Option SandboxRecord
      → Action (World Server) Info
  adjusted now a name delta flush started_at records none = raise (http 404)
  adjusted now a name delta flush started_at records (some r) = do
    flushed flush (set_record name (r.value +ℤ delta) records)
    informed now a (set_record name (r.value +ℤ delta) records) started_at

  unfoldable pub adjust_record :
      Bool → ℕ → Text → ℕ → Text → ℤ → Result (Unit {0}) → Action (World Server) Info
  adjust_record free now id admin name delta flush = do
    a ← verify_impersonation free now id admin
    caught
        (do
          (records, started_at) ← on_holder (use_session free id)
          adjusted now a name delta flush started_at records (find_record name records))
        (adjust_handler free now a)

  unfoldable pub get_impersonation_info : Bool → ℕ → Text → ℕ → Action (World Server) Info
  get_impersonation_info free now id admin = do
    a ← verify_impersonation free now id admin
    caught
        (do
          (records, started_at) ← on_holder (use_session free id)
          informed now a records started_at)
        (info_handler free now a)

  -- The active impersonation of an admin, by whatever id.
  abbrev pub of_admin : ℕ → Option ActiveImpersonation → Action (World Server) ActiveImpersonation
  of_admin admin none w = (raised (http 404), w)
  of_admin admin (some a) w = if a.admin_user_id == admin then (ok a, w) else (raised (http 404), w)

  abbrev pub status_of : Bool → ℕ → ActiveImpersonation → Action (World Server) Summary
  status_of free now a w =
      if is_expired now a
      then end_expired free now a w
      else if is_worker_alive redis lease w.server
      then (ok (summary_of redis lease now a w), w)
      else (raised (http 410), w)

  unfoldable pub get_impersonation_status_for_admin : Bool → ℕ → ℕ → Action (World Server) Summary
  get_impersonation_status_for_admin free now admin =
      get_active redis lease >>= of_admin admin >>= status_of free now

  unfoldable pub force_end_impersonation : Bool → ℕ → ℕ → Action (World Server) Text
  force_end_impersonation free now admin = do
    a ← get_active redis lease >>= of_admin admin
    end_impersonation redis lease free now a force_ended_by_admin
    pure a.impersonation_id

  unfoldable pub logout : Bool → ℕ → Text → ℕ → Action (World Server) Text
  logout free now id admin = do
    a ← check_ownership id admin
    end_impersonation redis lease free now a explicit_logout
    pure id
