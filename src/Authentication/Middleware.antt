-- ===== src/Authentication/Middleware.antt =====
-- apps/app/core/auth/middleware/jwt_middleware.py, get_bearer_token of
-- apps/app/core/auth/access_token.py and create_new_token of
-- apps/app/modules/okta/service/okta_service.py. `encode` is `jwt.encode` with the secret, and
-- `call_next` what the handler of the request does to the stores; it ends at the time `later`.
use remote_connect_backend.Base.{
  ℕ, zero, suc, ◌+◌, ◌*◌, Bool, true, false, ◌&&◌, ◌||◌, not, Option, none, some, is_some, List, [],
  ◌∷◌, if◌then◌else◌, ltb,
}
use remote_connect_backend.Base.Strip.{strip_start, strip_end}
use remote_connect_backend.Base.Text.{Text, codes, ◌≐◌, contains}
use remote_connect_backend.Base.Action.{Result, ok, raised}
use remote_connect_backend.Redis.{Redis}
use remote_connect_backend.Users.{User}
use remote_connect_backend.Sessions.{UserSession, Sessions, rotate_session_token}
use remote_connect_backend.Sessions.Devices.{lower, given}
use remote_connect_backend.Authorization.{
  MethodPaths, matches, normalized_path, starts_with, without_prefix,
}
use remote_connect_backend.Authentication.{
  Payload, ImpersonationInfo, AuthenticatedSession, Stores, authenticate,
}

pub record Request : Type 0 where
  pub method : Text
  pub path : Text
  pub authorization : Option Text
  pub cookie : Option Text
  pub impersonation_id_header : Option Text

abbrev pub bearer : Text
bearer = codes "bearer "

abbrev pub bearer_or_cookie : Option Text → Option Text → Option Text
bearer_or_cookie none cookie = cookie
bearer_or_cookie (some header) cookie =
    if starts_with bearer (lower header)
    then some (strip_start (strip_end (without_prefix bearer header)))
    else cookie

unfoldable pub get_bearer_token : Request → Option Text
get_bearer_token r = bearer_or_cookie (given r.authorization) r.cookie

-- What the handler finds in the state of the request and in the context.
pub record Seen : Type 0 where
  pub seen_user_id : Option ℕ
  pub seen_session_id : Option Text
  pub seen_impersonation : Option ImpersonationInfo
  pub current_admin_id : Option ℕ
  pub current_impersonation_id : Option Text

abbrev pub nobody : Seen
nobody = record {
  seen_user_id = none;
  seen_session_id = none;
  seen_impersonation = none;
  current_admin_id = none;
  current_impersonation_id = none;
}

abbrev pub id_of_session : Option UserSession → Option Text
id_of_session none = none
id_of_session (some s) = some s.session_id

abbrev pub admin_or_user : Option ImpersonationInfo → ℕ → ℕ
admin_or_user none user = user
admin_or_user (some i) user = i.admin_id

abbrev pub id_of_impersonation : Option ImpersonationInfo → Option Text
id_of_impersonation none = none
id_of_impersonation (some i) = some i.impersonation_id

unfoldable pub seen_by : AuthenticatedSession → Seen
seen_by a = record {
  seen_user_id = some a.user.user_id;
  seen_session_id = id_of_session a.session;
  seen_impersonation = a.impersonation;
  current_admin_id = some (admin_or_user a.impersonation a.user.user_id);
  current_impersonation_id = id_of_impersonation a.impersonation;
}

-- The handler's answer with a new cookie, if there is one; a refusal by its status; or an exception
-- after the handler.
pub data Answer : Type 0 where
  answered : Seen → Option Text → Answer
  refused : ℕ → Answer
  failed : Answer

pub record Config : Type 0 where
  pub public_paths : List Text
  pub impersonation_auth_bypass : MethodPaths
  pub jwt_access_token_minutes : ℕ
  pub token_rotation_grace_seconds : ℕ

-- `SKIP_PATHS` and `SKIP_PREFIXES`
unfoldable pub is_skipped : Text → Bool
is_skipped path =
    contains path (codes "/favicon.ico" ∷ codes "/robots.txt" ∷ [])
    || (starts_with (codes "/docs") path
        || (starts_with (codes "/openapi") path || starts_with (codes "/redoc") path))

-- The claims of `create_new_token`.
unfoldable pub user_payload : ℕ → ℕ → User → Payload
user_payload now minutes user = record {
  sub = some user.user_id;
  exp = some (now + minutes * 60);
  impersonated = false;
  impersonation_id = none;
  admin_id = none;
  admin_session_id = none;
}

-- An `exp` of 0 counts as none.
abbrev pub expiring : ℕ → Option ℕ → Bool
expiring now none = false
expiring now (some zero) = false
expiring now (some (suc exp)) = ltb (suc exp) (now + 120)

module _ (redis : Redis) (lease : ℕ) (decode : ℕ → Text → Option Payload)
    (encode : Payload → Text) where
  open redis use {Server}

  abbrev pub rotation_answer :
      Seen → Text → Stores Server → Result ℕ × Sessions → Answer × Stores Server
  rotation_answer seen token st (raised e, rows) = (failed, record st { sessions = rows })
  rotation_answer seen token st (ok zero, rows) =
      (answered seen none, record st { sessions = rows })
  rotation_answer seen token st (ok (suc n), rows) =
      (answered seen (some token), record st { sessions = rows })

  -- `_refresh_token_if_expiring_soon`
  abbrev pub refreshed :
      Config
      → ℕ
      → Text
      → AuthenticatedSession
      → UserSession
      → Stores Server
      → Answer × Stores Server
  refreshed cfg later token a s st =
      let new_token = encode (user_payload later cfg.jwt_access_token_minutes a.user) in
      rotation_answer (seen_by a) new_token st (
        rotate_session_token later s.session_id new_token token cfg.token_rotation_grace_seconds
          st.sessions)

  abbrev pub after_handler :
      Config
      → ℕ
      → Text
      → AuthenticatedSession
      → Option UserSession
      → Stores Server
      → Answer × Stores Server
  after_handler cfg later token a none st = (answered (seen_by a) none, st)
  after_handler cfg later token a (some s) st =
      if expiring later a.payload.exp
      then refreshed cfg later token a s st
      else (answered (seen_by a) none, st)

  abbrev pub user_answer :
      Config
      → ℕ
      → (Seen → Stores Server → Stores Server)
      → Text
      → Result AuthenticatedSession × Stores Server
      → Answer × Stores Server
  user_answer cfg later call_next token (raised e, st) = (refused 401, st)
  user_answer cfg later call_next token (ok a, st) =
      after_handler cfg later token a a.session (call_next (seen_by a) st)

  abbrev pub token_check :
      Config
      → Bool
      → ℕ
      → ℕ
      → (Seen → Stores Server → Stores Server)
      → Request
      → Option Text
      → Stores Server
      → Answer × Stores Server
  token_check cfg worker now later call_next r none st = (refused 401, st)
  token_check cfg worker now later call_next r (some token) st =
      user_answer cfg later call_next token
        (authenticate redis lease decode worker now token r.impersonation_id_header st)

  -- An authentication without an impersonation is refused as well.
  abbrev pub impersonation_answer :
      (Seen → Stores Server → Stores Server)
      → AuthenticatedSession
      → Option ImpersonationInfo
      → Stores Server
      → Answer × Stores Server
  impersonation_answer call_next a none st = (refused 403, st)
  impersonation_answer call_next a (some i) st =
      (answered (seen_by a) none, call_next (seen_by a) st)

  abbrev pub worker_answer :
      (Seen → Stores Server → Stores Server)
      → Result AuthenticatedSession × Stores Server
      → Answer × Stores Server
  worker_answer call_next (raised e, st) = (refused 403, st)
  worker_answer call_next (ok a, st) = impersonation_answer call_next a a.impersonation st

  abbrev pub worker_token_check :
      ℕ
      → (Seen → Stores Server → Stores Server)
      → Text
      → Option Text
      → Stores Server
      → Answer × Stores Server
  worker_token_check now call_next header none st = (refused 403, st)
  worker_token_check now call_next header (some token) st =
      worker_answer call_next (authenticate redis lease decode true now token (some header) st)

  abbrev pub worker_header_check :
      ℕ
      → (Seen → Stores Server → Stores Server)
      → Request
      → Option Text
      → Stores Server
      → Answer × Stores Server
  worker_header_check now call_next r none st = (refused 403, st)
  worker_header_check now call_next r (some header) st =
      worker_token_check now call_next header (given (get_bearer_token r)) st

  unfoldable pub dispatch_impersonation_worker :
      ℕ → (Seen → Stores Server → Stores Server) → Request → Stores Server → Answer × Stores Server
  dispatch_impersonation_worker now call_next r st =
      worker_header_check now call_next r (given r.impersonation_id_header) st

  -- Requests that need no token.
  abbrev pub is_open : Config → Request → Bool
  is_open cfg r = is_skipped r.path || contains (normalized_path r.path) cfg.public_paths

  unfoldable pub dispatch :
      Config
      → Bool
      → ℕ
      → ℕ
      → (Seen → Stores Server → Stores Server)
      → Request
      → Stores Server
      → Answer × Stores Server
  dispatch cfg worker now later call_next r st =
      if r.method ≐ codes "OPTIONS"
      then (answered nobody none, call_next nobody st)
      else if worker
          && not (matches cfg.impersonation_auth_bypass r.method (normalized_path r.path))
      then dispatch_impersonation_worker now call_next r st
      else if is_open cfg r
      then (answered nobody none, call_next nobody st)
      else if is_some (given r.impersonation_id_header) && not worker
      then (refused 403, st)
      else token_check cfg worker now later call_next r (given (get_bearer_token r)) st
