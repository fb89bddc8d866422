-- ===== src/Authentication/Routes.antt =====
-- apps/app/modules/impersonation/controller/impersonation_controller.py, and reissue_admin_token of the
-- service that it calls. The decorators are left out but for handle_route_errors. Ids of sessions are
-- the texts that `str` writes of them. `free` and `flush` are as in Impersonation.Service.
use remote_connect_backend.Base.{
  ℕ, zero, suc, ◌+◌, ◌⊎◌, inl, inr, Bool, true, false, Option, none, some, is_some, if◌then◌else◌,
}
use remote_connect_backend.Base.Text.{Text, codes}
use remote_connect_backend.Base.Int.{ℤ}
use remote_connect_backend.Base.Action.{
  http, value_error, Result, Action, ok, raised, pure, raise, ◌>>=◌, ◌>>◌,
}
use remote_connect_backend.Redis.{Redis}
use remote_connect_backend.Users.{User, get_by_id}
use remote_connect_backend.Tasks.Runs.{to_uuid}
use remote_connect_backend.Sessions.{Sessions, set_session_token}
use remote_connect_backend.Sessions.Devices.{given}
use remote_connect_backend.Impersonation.World.{World, Info, Summary}
use remote_connect_backend.Impersonation.Service.{start_impersonation}
use remote_connect_backend.Authentication.{
  Payload, impersonation_payload, ImpersonationInfo, Stores, active_user,
}
use remote_connect_backend.Authentication.Middleware.{user_payload}
use remote_connect_backend.Impersonation.Requests

pub record AppState (Server : Type 0) : Type 0 where
  pub world : World Server
  pub sessions : Sessions

abbrev pub stores_of : {Server : Type 0} → AppState Server → Stores Server
stores_of st = record { server = st.world.server; users = st.world.users; sessions = st.sessions }

module _ {S A : Type 0} where
  abbrev pub on_world : Action (World S) A → Action (AppState S) A
  on_world m st = let (r, w) = m st.world in (r, record st { world = w })

  abbrev pub on_sessions : Action Sessions A → Action (AppState S) A
  on_sessions m st = let (r, rows) = m st.sessions in (r, record st { sessions = rows })

-- `handle_route_errors`: what is no answer of its own becomes a 500.
abbrev pub translated : {A : Type 0} → Result A → Result A
translated (ok a) = ok a
translated (raised (http status)) = raised (http status)
translated (raised e) = raised (http 500)

abbrev pub handled : {S A : Type 0} → Action S A → Action S A
handled m s = let (r, s') = m s in (translated r, s')

abbrev pub require_dedicated_worker : {S : Type 0} → Bool → Action S (Unit {0})
require_dedicated_worker true = pure tt
require_dedicated_worker false = raise (http 409)

abbrev pub require_active_impersonation :
    {S : Type 0} → Option ImpersonationInfo → Action S ImpersonationInfo
require_active_impersonation none = raise (http 400)
require_active_impersonation (some i) = pure i

-- A number of the body that is there and not 0.
abbrev pub positive_of : Option ℕ → Option ℕ
positive_of none = none
positive_of (some zero) = none
positive_of (some (suc n)) = some (suc n)

abbrev pub or_longest : Option ℕ → ℕ → ℕ
or_longest none longest = longest
or_longest (some n) longest = n

-- `str(admin_session_id)`
abbrev pub str_of : Option Text → Text
str_of none = codes "None"
str_of (some id) = id

abbrev pub token_of : (Payload → Text) → Option User → ℕ → ℕ → Option Text
token_of encode none now minutes = none
token_of encode (some u) now minutes = some (encode (user_payload now minutes u))

-- The new token is written to the row of the admin's session.
abbrev pub reissued : Text → Option Text → Action Sessions (Option Text)
reissued id none rows = (ok none, rows)
reissued id (some token) rows =
    if is_some (to_uuid id)
    then (set_session_token id token >>= λ _. pure (some token)) rows
    else (raised value_error, rows)

module _ (redis : Redis) (lease : ℕ) (encode : Payload → Text) where
  open redis use {Server}

  unfoldable pub reissue_admin_token : ℕ → ℕ → ℕ → Text → Action (AppState Server) (Option Text)
  reissue_admin_token now minutes admin session st =
      on_sessions
        (reissued session
          (token_of encode (active_user (get_by_id admin st.world.users)) now minutes))
        st

  -- The information, whether an earlier impersonation was reclaimed, and the token of the cookie.
  abbrev pub start_found :
      Bool
      → Bool
      → ℕ
      → ℕ
      → Text
      → ℕ
      → Option Text
      → ℕ
      → Option ℕ
      → Option User
      → Action (AppState Server) ((Info × Bool) × Text)
  start_found cleanup_free free longest now id admin session target ttl none = raise (http 404)
  start_found cleanup_free free longest now id admin session target ttl (some u) = do
    (info, reclaimed) ← on_world (
        start_impersonation redis lease cleanup_free free longest now id admin target
          (or_longest (positive_of ttl) longest))
    pure (
      (info, reclaimed),
      encode (
          impersonation_payload target admin (now + info.summary.ttl_seconds)
            info.summary.impersonation_id (str_of session)),
    )

  abbrev pub start_for :
      Bool
      → Bool
      → ℕ
      → ℕ
      → Text
      → ℕ
      → Option Text
      → Option ℕ
      → Option ℕ
      → Action (AppState Server) ((Info × Bool) × Text)
  start_for cleanup_free free longest now id admin session none ttl = raise (http 400)
  start_for cleanup_free free longest now id admin session (some target) ttl = λ st.
      start_found cleanup_free free longest now id admin session target ttl
        (get_by_id target st.world.users) st

  -- `admin` and `session` are those of the request, `target` and `ttl` those of its body.
  unfoldable pub start_route :
      Bool
      → Bool
      → Bool
      → ℕ
      → ℕ
      → Text
      → ℕ
      → Option Text
      → Option ℕ
      → Option ℕ
      → Action (AppState Server) ((Info × Bool) × Text)
  start_route worker cleanup_free free longest now id admin session target ttl = handled (do
    require_dedicated_worker worker
    start_for cleanup_free free longest now id admin session (positive_of target) ttl)

  abbrev pub update_with :
      Bool
      → ℕ
      → ImpersonationInfo
      → Option Text
      → Option ℤ
      → Result (Unit {0})
      → Action (AppState Server) Info
  update_with free now i (some name) (some value) flush =
      on_world
        (Requests.update_record redis lease free now i.impersonation_id i.admin_id name value flush)
  update_with free now i _ _ flush = raise (http 400)

  unfoldable pub update_route :
      Bool
      → Bool
      → ℕ
      → Option ImpersonationInfo
      → Option Text
      → Option ℤ
      → Result (Unit {0})
      → Action (AppState Server) Info
  update_route worker free now impersonation name value flush = handled (do
    require_dedicated_worker worker
    i ← require_active_impersonation impersonation
    update_with free now i (given name) value flush)

  abbrev pub adjust_with :
      Bool
      → ℕ
      → ImpersonationInfo
      → Option Text
      → Option ℤ
      → Result (Unit {0})
      → Action (AppState Server) Info
  adjust_with free now i (some name) (some delta) flush =
      on_world
        (Requests.adjust_record redis lease free now i.impersonation_id i.admin_id name delta flush)
  adjust_with free now i _ _ flush = raise (http 400)

  unfoldable pub update_again_route :
      Bool
      → Bool
      → ℕ
      → Option ImpersonationInfo
      → Option Text
      → Option ℤ
      → Result (Unit {0})
      → Action (AppState Server) Info
  update_again_route worker free now impersonation name delta flush = handled (do
    require_dedicated_worker worker
    i ← require_active_impersonation impersonation
    adjust_with free now i (given name) delta flush)

  -- Under an impersonation its information, and else the state of the admin's own.
  unfoldable pub state_route :
      Bool → Bool → ℕ → Option ImpersonationInfo → ℕ → Action (AppState Server) (Info ⊎ Summary)
  state_route worker free now (some i) user = handled (do
    require_dedicated_worker worker
    info ←
        on_world
          (Requests.get_impersonation_info redis lease free now i.impersonation_id i.admin_id)
    pure (inl info))
  state_route worker free now none user = handled (do
    summary ← on_world (Requests.get_impersonation_status_for_admin redis lease free now user)
    pure (inr summary))

  unfoldable pub force_end_route : Bool → ℕ → ℕ → Action (AppState Server) Text
  force_end_route free now user =
      handled (on_world (Requests.force_end_impersonation redis lease free now user))

  abbrev pub with_admin_token :
      ℕ → ℕ → ImpersonationInfo → Text → Action (AppState Server) (Text × Option Text)
  with_admin_token now minutes i id = do
    token ← reissue_admin_token now minutes i.admin_id i.admin_session_id
    pure (id, token)

  -- The id of the impersonation, and the token of the admin's cookie.
  unfoldable pub logout_route :
      Bool → Bool → ℕ → ℕ → Option ImpersonationInfo → Action (AppState Server) (Text × Option Text)
  logout_route worker free now minutes impersonation = handled (do
    require_dedicated_worker worker
    i ← require_active_impersonation impersonation
    id ← on_world (Requests.logout redis lease free now i.impersonation_id i.admin_id)
    with_admin_token now minutes i id)
