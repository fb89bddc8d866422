-- ===== src/Impersonation/World.antt =====
-- What apps/app/modules/impersonation/service/impersonation_service.py reads and writes: the server,
-- the session of the worker, the audit table, the messages to the sockets, the committed sandbox
-- records and the users. The audit's own session is taken to commit.
use remote_connect_backend.Base.{
  ℕ, Bool, Option, none, some, is_some, List, [], ◌∷◌, ◌++◌, if◌then◌else◌,
}
use remote_connect_backend.Base.Text.{Text, ◌≐◌}
use remote_connect_backend.Base.Int.{ℤ}
use remote_connect_backend.Base.Action.{Action, ok, pure, modify, ◌>>=◌}
use remote_connect_backend.Users.{User}
use remote_connect_backend.Impersonation.Holder.{
  SandboxRecord, Holder, has_session, use_session, end_session,
}

-- `termination_reason`
pub data Reason : Type 0 where
  expired worker_crash_detected request_error force_ended_by_admin explicit_logout : Reason

pub data AuditStatus : Type 0 where
  active ended : AuditStatus

-- A row of apps/app/modules/impersonation/entities/impersonation_audit_entity.py
pub record ImpersonationAudit : Type 0 where
  pub audited_id : Text
  pub admin_user_id : ℕ
  pub target_user_id : ℕ
  pub started_at : ℕ
  pub ended_at : Option ℕ
  pub termination_reason : Option Reason
  pub status : AuditStatus

-- The two sets of fields that `_save_audit_entry` is called with.
pub data AuditFields : Type 0 where
  starts : ℕ → ℕ → ℕ → AuditFields
  ends : ℕ → Reason → AuditFields

-- `invalidate_endpoint_sync("impersonation/state")` and `invalidate_impersonation_sync(id)`
pub data Message : Type 0 where
  state_changed : Message
  impersonation_gone : Text → Message

pub record World (Server : Type 0) : Type 0 where
  pub server : Server
  pub holder : Holder
  pub audits : List ImpersonationAudit
  pub messages : List Message
  pub sandbox : List SandboxRecord
  pub users : List User

abbrev pub find_audit : Text → List ImpersonationAudit → Option ImpersonationAudit
find_audit id [] = none
find_audit id (a ∷ rest) = if a.audited_id ≐ id then some a else find_audit id rest

abbrev pub set_fields : AuditFields → ImpersonationAudit → ImpersonationAudit
set_fields (starts admin target now) a = record a {
  admin_user_id = admin;
  target_user_id = target;
  started_at = now;
  ended_at = none;
  termination_reason = none;
  status = active;
}
set_fields (ends now reason) a = record a {
  ended_at = some now;
  termination_reason = some reason;
  status = ended;
}

abbrev pub change_audit : Text → AuditFields → List ImpersonationAudit → List ImpersonationAudit
change_audit id fields [] = []
change_audit id fields (a ∷ rest) =
    if a.audited_id ≐ id then set_fields fields a ∷ rest else a ∷ change_audit id fields rest

-- Without the admin's id no row is made.
abbrev pub add_audit : Text → AuditFields → List ImpersonationAudit → List ImpersonationAudit
add_audit id (starts admin target now) audits =
    audits
    ++ record {
      audited_id = id;
      admin_user_id = admin;
      target_user_id = target;
      started_at = now;
      ended_at = none;
      termination_reason = none;
      status = active;
    }
      ∷ []
add_audit id (ends now reason) audits = audits

unfoldable pub save_audit_entry :
    Text → AuditFields → List ImpersonationAudit → List ImpersonationAudit
save_audit_entry id fields audits =
    if is_some (find_audit id audits)
    then change_audit id fields audits
    else add_audit id fields audits

-- What the admin is told of an impersonation.
pub record Summary : Type 0 where
  pub impersonation_id : Text
  pub admin_user_id : ℕ
  pub admin_name : Option Text
  pub target_user_id : ℕ
  pub target_name : Option Text
  pub ttl_seconds : ℕ
  pub seconds_left : ℕ
  pub heartbeat_seconds_remaining : ℕ
  pub heartbeat_seconds_ago : ℕ

-- The rows are in the order of the table.
pub record Info : Type 0 where
  pub summary : Summary
  pub transaction_started_at : Option ℕ
  pub sandbox_records : List SandboxRecord

abbrev pub name_of : Option User → Option Text
name_of none = none
name_of (some u) = u.name

abbrev pub find_record : Text → List SandboxRecord → Option SandboxRecord
find_record name [] = none
find_record name (r ∷ rs) = if r.name ≐ name then some r else find_record name rs

abbrev pub set_record : Text → ℤ → List SandboxRecord → List SandboxRecord
set_record name value [] = []
set_record name value (r ∷ rs) =
    if r.name ≐ name then record r { value = value } ∷ rs else r ∷ set_record name value rs

-- Operations on one part of the state.
module _ {S : Type 0} where
  abbrev pub on_server : {A : Type 0} → Action S A → Action (World S) A
  on_server m w = let (r, s) = m w.server in (r, record w { server = s })

  abbrev pub on_holder : {A : Type 0} → Action Holder A → Action (World S) A
  on_holder m w = let (r, h) = m w.holder in (r, record w { holder = h })

  abbrev pub save_audit : Text → AuditFields → Action (World S) (Unit {0})
  save_audit id fields = modify λ w. record w { audits = save_audit_entry id fields w.audits }

  abbrev pub send : Message → Action (World S) (Unit {0})
  send m = modify λ w. record w { messages = w.messages ++ m ∷ [] }

  abbrev pub drop_session : Action (World S) (Unit {0})
  drop_session = modify λ w. record w { holder = end_session w.holder }

  -- `if holder.has_session(...)`: the session is taken, rolled back and ended.
  abbrev pub end_held : Bool → Text → Action (World S) (Unit {0})
  end_held free id w =
      if has_session id w.holder
      then (on_holder (use_session free id) >>= λ _. drop_session) w
      else (ok tt, w)

  -- The client is told, but for a logout of its own.
  abbrev pub tell_gone : Reason → Text → Action (World S) (Unit {0})
  tell_gone explicit_logout id = pure tt
  tell_gone _ id = send (impersonation_gone id)
