-- ===== src/Impersonation/Holder.antt =====
-- apps/app/modules/impersonation/service/impersonation_session_holder.py: the database session that
-- the worker holds open for an impersonation. A session is the table of sandbox records as its
-- transaction sees it; a rollback drops it. `free` tells whether the lock of the session is got:
-- within 30 seconds in `use_session`, at once in `end_session_if_stale`. The other operations wait
-- for it.
use remote_connect_backend.Base.{ℕ, Bool, true, false, ◌&&◌, Option, none, some, is_some, List}
use remote_connect_backend.Base.Text.{Text, ◌≐◌}
use remote_connect_backend.Base.Int.{ℤ}
use remote_connect_backend.Base.Action.{
  Result, Action, ok, raised, runtime_error, timeout_error, session_not_found,
}

-- A row of apps/app/modules/impersonation/entities/impersonation_sandbox_record_entity.py
pub record SandboxRecord : Type 0 where
  pub name : Text
  pub value : ℤ

-- The variables of the module.
pub record Holder : Type 0 where
  pub impersonation_session : Option (List SandboxRecord)
  pub impersonation_id : Option Text
  pub started_at : Option ℕ

abbrev pub no_session : Holder
no_session = record { impersonation_session = none; impersonation_id = none; started_at = none }

abbrev pub is_id : Text → Option Text → Bool
is_id id none = false
is_id id (some held) = held ≐ id

-- A new session sees the committed rows.
abbrev pub start_session_at :
    ℕ → Text → List SandboxRecord → Option (List SandboxRecord) → Action Holder (Unit {0})
start_session_at now id committed (some s) h = (raised runtime_error, h)
start_session_at now id committed none h = (
  ok tt,
  record {
    impersonation_session = some committed;
    impersonation_id = some id;
    started_at = some now;
  },
)

unfoldable pub start_session : ℕ → Text → List SandboxRecord → Action Holder (Unit {0})
start_session now id committed h = start_session_at now id committed h.impersonation_session h

unfoldable pub has_session : Text → Holder → Bool
has_session id h = is_some h.impersonation_session && is_id id h.impersonation_id

-- What `use_session` hands to the block under it.
abbrev pub session_of :
    Bool → Option (List SandboxRecord) → Option ℕ → Result (List SandboxRecord × Option ℕ)
session_of false _ _ = raised session_not_found
session_of true none _ = raised session_not_found
session_of true (some s) started_at = ok (s, started_at)

unfoldable pub use_session : Bool → Text → Action Holder (List SandboxRecord × Option ℕ)
use_session false id h = (raised timeout_error, h)
use_session true id h =
    (session_of (is_id id h.impersonation_id) h.impersonation_session h.started_at, h)

unfoldable pub end_session : Holder → Holder
end_session h = no_session
