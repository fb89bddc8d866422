-- ===== src/Authentication/ImpersonationToken.antt =====
-- What the token of an impersonation authenticates, by what is in the lock.
use remote_connect_backend.Base.{
  ℕ, ◌+◌, ◌≡◌, Bool, Option, none, some, true, false, arith, if◌then◌else◌, ==_self,
}
use remote_connect_backend.Base.Text.{Text, ≐_self}
use remote_connect_backend.Base.Action.{ok, raised, token_error}
use remote_connect_backend.Redis.{Redis}
use remote_connect_backend.Users.{User, get_by_id}
use remote_connect_backend.Sessions.Devices.{is_empty}
use remote_connect_backend.Impersonation.Lock.{
  active_key, ActiveImpersonation, dumped, get_active_impersonation,
}
use remote_connect_backend.Authentication.{
  Payload, impersonation_payload, Stores, AuthenticatedSession, claims_of,
  authenticate_impersonation, authenticate,
}

-- The payload of an impersonation's token, and what it authenticates.
abbrev pub payload_for : ActiveImpersonation → ℕ → Text → Payload
payload_for a now session =
    impersonation_payload a.target_user_id a.admin_user_id (now + a.ttl_seconds) a.impersonation_id
      session

abbrev pub authenticated_as : ActiveImpersonation → ℕ → Text → User → AuthenticatedSession
authenticated_as a now session u = record {
  user = u;
  session = none;
  payload = payload_for a now session;
  impersonation = some (record {
    admin_id = a.admin_user_id;
    impersonation_id = a.impersonation_id;
    admin_session_id = session;
  });
}

module _ (redis : Redis) (lease : ℕ) (decode : ℕ → Text → Option Payload) (a : ActiveImpersonation)
    (now : ℕ) (session token : Text) (id_given : is_empty a.impersonation_id ≡ false)
    (session_given : is_empty session ≡ false) where
  open redis use {Server, get}

  pub authenticate-locked :
      (t : ℕ) (st : Stores Server) (v u : User)
      → decode t token ≡ some (payload_for a now session)
      → get st.server active_key ≡ some (dumped a)
      → get_by_id a.admin_user_id st.users ≡ some v
      → v.is_admin ≡ true
      → get_by_id a.target_user_id st.users ≡ some u
      → u.is_active ≡ true
      → (authenticate redis lease decode true t token (some a.impersonation_id) st).0
        ≡ ok (authenticated_as a now session u)
  unfolding authenticate authenticate_impersonation claims_of impersonation_payload
      get_active_impersonation
  authenticate-locked t st v u decoded here admin_there is_admin target_there on = ground (
    arith,
    decoded,
    id_given,
    session_given,
    ≐_self a.impersonation_id,
    ==_self a.admin_user_id,
    ==_self a.target_user_id,
    here,
    admin_there,
    is_admin,
    target_there,
    on,
  )

  pub authenticate-unlocked :
      (t : ℕ) (st : Stores Server) (b : Bool)
      → decode t token ≡ (if b then some (payload_for a now session) else none)
      → get st.server active_key ≡ none
      → (authenticate redis lease decode true t token (some a.impersonation_id) st).0
        ≡ raised token_error
  unfolding authenticate authenticate_impersonation claims_of impersonation_payload
      get_active_impersonation
  authenticate-unlocked t st b decoded gone =
      ground (arith, decoded, id_given, session_given, ≐_self a.impersonation_id, gone)
