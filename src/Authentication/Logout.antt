-- ===== src/Authentication/Logout.antt =====
-- `logout` of apps/app/modules/auth/service/auth_service.py, on a worker for impersonations and on any
-- other. The message to the session's sockets is left out.
use remote_connect_backend.Base.{ℕ, Bool, true, false, Option, none, some}
use remote_connect_backend.Base.Text.{Text}
use remote_connect_backend.Base.Action.{token_error, Action, ok, raised, pure, ◌>>=◌}
use remote_connect_backend.Redis.{Redis}
use remote_connect_backend.Sessions.Devices.{given}
use remote_connect_backend.Sessions.Logins
use remote_connect_backend.Impersonation.Requests
use remote_connect_backend.Authentication.{Payload}
use remote_connect_backend.Authentication.Routes.{AppState, on_world, on_sessions}

module _ (redis : Redis) (lease : ℕ) where
  open redis use {Server}

  -- An impersonation that cannot be ended is only logged.
  abbrev pub end_claimed : Bool → ℕ → Option Text → Option ℕ → AppState Server → AppState Server
  end_claimed free now (some id) (some admin) st =
      (on_world (Requests.logout redis lease free now id admin) st).1
  end_claimed free now _ _ st = st

  abbrev pub logout_by :
      Bool → Bool → ℕ → Payload → Option ℕ → Action (AppState Server) (ℕ × Option Text)
  logout_by worker free now payload none st = (raised token_error, st)
  logout_by true free now payload (some user) st =
      (ok (user, none), end_claimed free now (given payload.impersonation_id) payload.admin_id st)
  logout_by false free now payload (some user) st =
      (do s ← on_sessions (Logins.logout now user); pure (user, some s.session_id)) st

  abbrev pub logout_token :
      Bool → Bool → ℕ → Option Payload → Action (AppState Server) (ℕ × Option Text)
  logout_token worker free now none st = (raised token_error, st)
  logout_token worker free now (some payload) st = logout_by worker free now payload payload.sub st

  unfoldable pub logout :
      (ℕ → Text → Option Payload)
      → Bool
      → Bool
      → ℕ
      → Text
      → Action (AppState Server) (ℕ × Option Text)
  logout decode worker free now token = logout_token worker free now (decode now token)
