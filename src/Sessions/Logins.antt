-- ===== src/Sessions/Logins.antt =====
-- `record_login` and `logout` of apps/app/modules/user/repositories/user_sessions_resposity.py.
use remote_connect_backend.Base.{ℕ, ◌-◌, Bool, true, false, ◌&&◌, Option, none, some, if◌then◌else◌}
use remote_connect_backend.Base.Text.{Text, ◌≐◌}
use remote_connect_backend.Base.Action.{Action, raised, other}
use remote_connect_backend.Sessions.{
  active, logged_out, LoginSource, Client, UserSession, Sessions, get_active_session,
  create_user_session, update_user_session,
}
use remote_connect_backend.Sessions.Devices.{
  unknown, infer_device_type, infer_operating_system, infer_operating_system_from_user_agent,
}
use remote_connect_backend.Sessions.Agents.{infer_browser_and_version}

-- The arguments of `record_login` beside the user and the token.
pub record LoginContext : Type 0 where
  pub login_source : LoginSource
  pub ip_address : Option Text
  pub user_agent : Option Text
  pub partner_id : Option ℕ
  pub role_id : Option ℕ
  pub browser_version : Option Text
  pub operating_system : Option Text
  pub device_type : Option Text

abbrev pub system_or_agent : Text → Option Text → Text
system_or_agent system user_agent =
    if system ≐ unknown then infer_operating_system_from_user_agent user_agent else system

unfoldable pub client_of : LoginContext → Client
client_of c =
    let (browser, version) = infer_browser_and_version c.browser_version c.user_agent in
    record {
      ip_address = c.ip_address;
      browser = browser;
      browser_version = version;
      operating_system = system_or_agent (infer_operating_system c.operating_system) c.user_agent;
      device_type = infer_device_type c.device_type;
    }

-- `session_data` written over a row: what it does not name stays.
abbrev pub logged_in : ℕ → ℕ → Text → LoginContext → UserSession → UserSession
logged_in now user token c s = record s {
  user_id = user;
  partner_id = c.partner_id;
  role_id = c.role_id;
  login_datetime = now;
  session_token = token;
  login_source = c.login_source;
  client = client_of c;
  user_agent = c.user_agent;
  status = active;
}

unfoldable pub new_session : ℕ → Text → ℕ → Text → LoginContext → UserSession
new_session now id user token c = record {
  session_id = id;
  user_id = user;
  partner_id = c.partner_id;
  role_id = c.role_id;
  login_datetime = now;
  logout_datetime = none;
  session_duration_seconds = none;
  session_token = token;
  previous_session_token = none;
  previous_token_expires_at = none;
  login_source = c.login_source;
  client = client_of c;
  user_agent = c.user_agent;
  status = active;
}

abbrev pub same_address : Option Text → Option Text → Bool
same_address none none = true
same_address none (some t) = false
same_address (some t) none = false
same_address (some t) (some u) = t ≐ u

unfoldable pub same_client : Client → Client → Bool
same_client a b =
    same_address a.ip_address b.ip_address
    && (a.browser ≐ b.browser
        && (a.browser_version ≐ b.browser_version
            && (a.operating_system ≐ b.operating_system && a.device_type ≐ b.device_type)))

-- The row of a login from the same client is used again; `id` is the id of a new row.
abbrev pub login_over :
    ℕ → Text → ℕ → Text → LoginContext → Option UserSession → Action Sessions UserSession
login_over now id user token c none rows =
    create_user_session (new_session now id user token c) rows
login_over now id user token c (some latest) rows =
    if same_client latest.client (client_of c)
    then update_user_session latest.session_id (logged_in now user token c) rows
    else create_user_session (new_session now id user token c) rows

unfoldable pub record_login : ℕ → Text → ℕ → Text → LoginContext → Action Sessions UserSession
record_login now id user token c rows =
    login_over now id user token c (get_active_session user rows) rows

-- `_get_session_duration`
abbrev pub ended : ℕ → UserSession → UserSession
ended now s = record s {
  status = logged_out;
  logout_datetime = some now;
  session_duration_seconds = some (now - s.login_datetime);
}

abbrev pub logout_of : ℕ → Option UserSession → Action Sessions UserSession
logout_of now none rows = (raised other, rows)
logout_of now (some s) rows = update_user_session s.session_id (ended now) rows

unfoldable pub logout : ℕ → ℕ → Action Sessions UserSession
logout now user rows = logout_of now (get_active_session user rows) rows
