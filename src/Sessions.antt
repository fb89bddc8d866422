-- ===== src/Sessions.antt =====
-- apps/app/modules/user/entities/user_session_entity.py and the statements on one session of
-- apps/app/modules/user/repositories/user_sessions_resposity.py. The table is the list of its rows; a
-- time is a number of seconds. A second row with a token breaks its unique constraint and raises.
pub mod Devices
pub mod Agents
pub mod Logins
pub mod Rotation
pub mod Current
pub mod Lifecycle
mod Tests
use remote_connect_backend.Base.{
  ℕ, suc, ◌+◌, ◌-◌, Bool, true, false, ◌&&◌, ◌||◌, Option, none, some, List, [], ◌∷◌, ◌++◌,
  if◌then◌else◌, ltb, ◌==◌,
}
use remote_connect_backend.Base.Text.{Text, ◌≐◌}
use remote_connect_backend.Base.Action.{Action, ok, raised, other}

-- `SessionStatusEnum`
pub data SessionStatus : Type 0 where
  active logged_out expired : SessionStatus

-- `LoginSourceEnum`
pub data LoginSource : Type 0 where
  web mobile api : LoginSource

-- The columns that tell the client of a session.
pub record Client : Type 0 where
  pub ip_address : Option Text
  pub browser : Text
  pub browser_version : Text
  pub operating_system : Text
  pub device_type : Text

pub record UserSession : Type 0 where
  pub session_id : Text
  pub user_id : ℕ
  pub partner_id : Option ℕ
  pub role_id : Option ℕ
  pub login_datetime : ℕ
  pub logout_datetime : Option ℕ
  pub session_duration_seconds : Option ℕ
  pub session_token : Text
  pub previous_session_token : Option Text
  pub previous_token_expires_at : Option ℕ
  pub login_source : LoginSource
  pub client : Client
  pub user_agent : Option Text
  pub status : SessionStatus

abbrev pub Sessions : Type 0
Sessions = List UserSession

abbrev pub is_active : SessionStatus → Bool
is_active active = true
is_active _ = false

-- SQL's `column = value` and `column > value`, where NULL is not true.
abbrev pub is_text : Option Text → Text → Bool
is_text none t = false
is_text (some u) t = u ≐ t

abbrev pub is_after : Option ℕ → ℕ → Bool
is_after none now = false
is_after (some t) now = ltb now t

-- The row with the later login; in a tie the first one.
abbrev pub later_login : UserSession → Option UserSession → Option UserSession
later_login s none = some s
later_login s (some r) = if ltb s.login_datetime r.login_datetime then some r else some s

unfoldable pub get_active_session : ℕ → Sessions → Option UserSession
get_active_session user [] = none
get_active_session user (s ∷ rest) =
    let latest = get_active_session user rest in
    if (s.user_id == user) && is_active s.status then later_login s latest else latest

-- The token is the row's, or its previous one within the time of grace.
abbrev pub accepts : ℕ → Text → UserSession → Bool
accepts now token s =
    s.session_token ≐ token
    || (is_text s.previous_session_token token && is_after s.previous_token_expires_at now)

unfoldable pub get_session_by_token : ℕ → Text → Sessions → Option UserSession
get_session_by_token now token [] = none
get_session_by_token now token (s ∷ rest) =
    if accepts now token s then some s else get_session_by_token now token rest

unfoldable pub find_session : Text → Sessions → Option UserSession
find_session id [] = none
find_session id (s ∷ rest) = if s.session_id ≐ id then some s else find_session id rest

-- Whether another row than the one with the id has the token.
unfoldable pub is_taken : Text → Text → Sessions → Bool
is_taken id token [] = false
is_taken id token (s ∷ rest) =
    let elsewhere = is_taken id token rest in
    if s.session_id ≐ id then elsewhere else s.session_token ≐ token || elsewhere

-- UPDATE of the rows that a test picks, and how many they are.
unfoldable pub change_sessions :
    (UserSession → Bool) → (UserSession → UserSession) → Sessions → Sessions
change_sessions test change [] = []
change_sessions test change (s ∷ rest) =
    (if test s then change s else s) ∷ change_sessions test change rest

unfoldable pub count_sessions : (UserSession → Bool) → Sessions → ℕ
count_sessions test [] = 0
count_sessions test (s ∷ rest) = let n = count_sessions test rest in if test s then suc n else n

abbrev pub rotated : ℕ → Text → Text → UserSession → UserSession
rotated grace_until new_token old_token s = record s {
  previous_session_token = some old_token;
  previous_token_expires_at = some grace_until;
  session_token = new_token;
}

abbrev pub holds_token : Text → Text → UserSession → Bool
holds_token id token s = (s.session_id ≐ id) && (s.session_token ≐ token)

unfoldable pub rotate_session_token : ℕ → Text → Text → Text → ℕ → Action Sessions ℕ
rotate_session_token now id new_token old_token grace_seconds rows =
    let n = count_sessions (holds_token id old_token) rows in
    if ltb 0 n && is_taken id new_token rows then (raised other, rows) else (
      ok n,
      change_sessions (holds_token id old_token) (rotated (now + grace_seconds) new_token old_token)
          rows,
    )

abbrev pub reset : Text → UserSession → UserSession
reset new_token s = record s {
  session_token = new_token;
  previous_session_token = none;
  previous_token_expires_at = none;
}

abbrev pub has_id : Text → UserSession → Bool
has_id id s = s.session_id ≐ id

unfoldable pub set_session_token : Text → Text → Action Sessions ℕ
set_session_token id new_token rows =
    let n = count_sessions (has_id id) rows in
    if ltb 0 n && is_taken id new_token rows
    then (raised other, rows)
    else (ok n, change_sessions (has_id id) (reset new_token) rows)

unfoldable pub create_user_session : UserSession → Action Sessions UserSession
create_user_session s rows =
    if is_taken s.session_id s.session_token rows
    then (raised other, rows)
    else (ok s, rows ++ s ∷ [])

-- `change` sets the columns that the dictionary names.
abbrev pub updated :
    Text → (UserSession → UserSession) → Option UserSession → Action Sessions UserSession
updated id change none rows = (raised other, rows)
updated id change (some s) rows =
    if is_taken id (change s).session_token rows
    then (raised other, rows)
    else (ok (change s), change_sessions (has_id id) change rows)

unfoldable pub update_user_session :
    Text → (UserSession → UserSession) → Action Sessions UserSession
update_user_session id change rows = updated id change (find_session id rows) rows
