-- ===== src/Authentication.antt =====
-- apps/app/modules/auth/service/auth_service.py and the claims of apps/app/core/auth/tokens.py. A claim
-- that is the decimal text of an id is the number; the service makes no other. `decode` is
-- `decode_token`: the payload of a token that the JWT library accepts at the time. `worker` is
-- `is_impersonation_worker()`.
pub mod Middleware
pub mod Admission
pub mod Decision
pub mod Dispatching
pub mod Lifecycle
pub mod Routes
pub mod Logout
pub mod ImpersonationToken
pub mod Impersonating
mod Tests
use remote_connect_backend.Base.{
  ℕ, Bool, true, false, ◌&&◌, ◌||◌, not, Option, none, some, List, if◌then◌else◌, ◌==◌,
}
use remote_connect_backend.Base.Text.{Text, ◌≐◌}
use remote_connect_backend.Base.Action.{
  Result, Action, ok, raised, token_error, pure, raise, ◌>>=◌, ◌>>◌,
}
use remote_connect_backend.Redis.{Redis}
use remote_connect_backend.Users.{User, get_by_id}
use remote_connect_backend.Sessions.{
  SessionStatus, active, logged_out, expired, UserSession, Sessions, get_session_by_token,
}
use remote_connect_backend.Sessions.Devices.{given}
use remote_connect_backend.Impersonation.Lock.{
  ActiveImpersonation, get_active_impersonation, refresh_worker_heartbeat,
}

pub record Payload : Type 0 where
  pub sub : Option ℕ
  pub exp : Option ℕ
  pub impersonated : Bool
  pub impersonation_id : Option Text
  pub admin_id : Option ℕ
  pub admin_session_id : Option Text

-- The claims of `create_impersonation_token`.
unfoldable pub impersonation_payload : ℕ → ℕ → ℕ → Text → Text → Payload
impersonation_payload target admin expires_at id admin_session = record {
  sub = some target;
  exp = some expires_at;
  impersonated = true;
  impersonation_id = some id;
  admin_id = some admin;
  admin_session_id = some admin_session;
}

pub record ImpersonationInfo : Type 0 where
  pub admin_id : ℕ
  pub impersonation_id : Text
  pub admin_session_id : Text

pub record AuthenticatedSession : Type 0 where
  pub user : User
  pub session : Option UserSession
  pub payload : Payload
  pub impersonation : Option ImpersonationInfo

-- What a request reads and writes beside its own data.
pub record Stores (Server : Type 0) : Type 0 where
  pub server : Server
  pub users : List User
  pub sessions : Sessions

abbrev pub is_logged_out : SessionStatus → Bool
is_logged_out logged_out = true
is_logged_out _ = false

abbrev pub session_check : User → Payload → Option UserSession → Result AuthenticatedSession
session_check user payload none = raised token_error
session_check user payload (some s) =
    if is_logged_out s.status
    then raised token_error
    else ok (record { user = user; session = some s; payload = payload; impersonation = none })

abbrev pub active_user : Option User → Option User
active_user none = none
active_user (some u) = if u.is_active then some u else none

abbrev pub admin_user : Option User → Option User
admin_user none = none
admin_user (some u) = if u.is_admin then some u else none

abbrev pub normal_user_check :
    ℕ → Text → Payload → Option User → Sessions → Result AuthenticatedSession
normal_user_check now token payload none sessions = raised token_error
normal_user_check now token payload (some u) sessions =
    session_check u payload (get_session_by_token now token sessions)

abbrev pub found_user : Option ℕ → List User → Option User
found_user none users = none
found_user (some id) users = get_by_id id users

unfoldable pub authenticate_normal_user :
    ℕ → Text → Payload → List User → Sessions → Result AuthenticatedSession
authenticate_normal_user now token payload users sessions =
    normal_user_check now token payload (active_user (found_user payload.sub users)) sessions

-- The claims of an impersonation token, if none of the four is missing.
pub record Claims : Type 0 where
  pub claimed_id : Text
  pub claimed_admin : ℕ
  pub claimed_target : ℕ
  pub claimed_admin_session : Text

abbrev pub claims_from : Option Text → Option ℕ → Option ℕ → Option Text → Option Claims
claims_from (some id) (some admin) (some target) (some session) = some (record {
  claimed_id = id;
  claimed_admin = admin;
  claimed_target = target;
  claimed_admin_session = session;
})
claims_from _ _ _ _ = none

unfoldable pub claims_of : Payload → Option Claims
claims_of p = claims_from (given p.impersonation_id) p.admin_id p.sub (given p.admin_session_id)

abbrev pub is_header : Option Text → Text → Bool
is_header none id = false
is_header (some h) id = h ≐ id

-- Whether the active impersonation is the one that the claims name.
abbrev pub is_claimed : Claims → Option ActiveImpersonation → Bool
is_claimed c none = false
is_claimed c (some a) =
    (a.impersonation_id ≐ c.claimed_id)
    && ((a.admin_user_id == c.claimed_admin) && (a.target_user_id == c.claimed_target))

abbrev pub impersonated_session : Claims → Payload → User → AuthenticatedSession
impersonated_session c payload user = record {
  user = user;
  session = none;
  payload = payload;
  impersonation = some (record {
    admin_id = c.claimed_admin;
    impersonation_id = c.claimed_id;
    admin_session_id = c.claimed_admin_session;
  });
}

module _ (redis : Redis) (lease : ℕ) where
  open redis use {Server}

  -- The checks of the admin and the target, and the heartbeat.
  abbrev pub users_check :
      Claims → Payload → Option User → Option User → Action Server AuthenticatedSession
  users_check c payload (some admin) (some target) s =
      (ok (impersonated_session c payload target), refresh_worker_heartbeat redis lease s)
  users_check c payload _ _ s = (raised token_error, s)

  abbrev pub active_check :
      Claims → Payload → List User → Option ActiveImpersonation → Action Server AuthenticatedSession
  active_check c payload users a s =
      if is_claimed c a
      then users_check c payload (admin_user (get_by_id c.claimed_admin users))
          (active_user (get_by_id c.claimed_target users)) s
      else (raised token_error, s)

  abbrev pub get_active : Action Server (Option ActiveImpersonation)
  get_active s = (get_active_impersonation redis lease s, s)

  abbrev pub claims_check :
      Option Text → Payload → List User → Option Claims → Action Server AuthenticatedSession
  claims_check header payload users none s = (raised token_error, s)
  claims_check header payload users (some c) s =
      if is_header (given header) c.claimed_id
      then (get_active >>= active_check c payload users) s
      else (raised token_error, s)

  unfoldable pub authenticate_impersonation :
      Bool → Payload → List User → Option Text → Action Server AuthenticatedSession
  authenticate_impersonation false payload users header s = (raised token_error, s)
  authenticate_impersonation true payload users header s =
      claims_check header payload users (claims_of payload) s

  -- What follows `decode_token`.
  abbrev pub payload_check :
      Bool
      → ℕ
      → Text
      → Option Text
      → Stores Server
      → Option Payload
      → Result AuthenticatedSession × Server
  payload_check worker now token header st none = (raised token_error, st.server)
  payload_check worker now token header st (some payload) =
      if payload.impersonated
      then authenticate_impersonation worker payload st.users header st.server
      else (
        elim (given header) [
          | some h ↦ raised token_error
          | none ↦ authenticate_normal_user now token payload st.users st.sessions
        ],
        st.server,
      )

  unfoldable pub authenticate :
      (ℕ → Text → Option Payload)
      → Bool
      → ℕ
      → Text
      → Option Text
      → Stores Server
      → Result AuthenticatedSession × Stores Server
  authenticate decode worker now token header st =
      let (r, s) = payload_check worker now token header st (decode now token) in
      (r, record st { server = s })
