-- ===== src/Authentication/Tests.antt =====
-- A user, the sessions and the middleware at concrete inputs.
use remote_connect_backend.Base.{
  ℕ, ◌+◌, ◌≡◌, ◌⊎◌, refl, arith, true, false, Option, none, some, [], ◌∷◌, ltb, inl, if◌then◌else◌,
}
use remote_connect_backend.Base.Text.{Text, codes}
use remote_connect_backend.Base.Action.{ok, raised, token_error}
use remote_connect_backend.Redis.Memory.{memory, empty}
use remote_connect_backend.Users.{User, get_by_id}
use remote_connect_backend.Sessions.{
  active, web, UserSession, get_session_by_token, rotated, rotate_session_token,
}
use remote_connect_backend.Authorization.{starts_with, normalized_path, rstrip}
use remote_connect_backend.Sessions.Logins.{LoginContext, record_login, logout}
use remote_connect_backend.Sessions.Rotation.{rotate_session_token-accepts}
use remote_connect_backend.Impersonation.Holder.{no_session}
use remote_connect_backend.Impersonation.World.{Info}
use remote_connect_backend.Authentication.Routes.{AppState, stores_of, start_route, logout_route}
use remote_connect_backend.Authentication.Impersonating.{later, start_route-authenticates}
use remote_connect_backend.Authentication.{
  Payload, impersonation_payload, Stores, authenticate_normal_user, authenticate,
}
use remote_connect_backend.Authentication.Middleware.{
  Request, Config, refused, Seen, is_skipped, dispatch,
}
use remote_connect_backend.Authentication.Dispatching.{IsServed, dispatch-IsServed}
use remote_connect_backend.Authentication.Lifecycle.{record_login-logout}

abbrev login : LoginContext
login = record {
  login_source = web;
  ip_address = some (codes "10.0.0.1");
  user_agent = none;
  partner_id = none;
  role_id = none;
  browser_version = none;
  operating_system = some (codes "Linux");
  device_type = none;
}

abbrev ann : User
ann = record {
  user_id = 7;
  name = some (codes "Ann");
  email = codes "ann@x";
  is_active = true;
  is_admin = false;
  deleted_at = none;
}

abbrev claims : Payload
claims = record {
  sub = some 7;
  exp = some 4000;
  impersonated = false;
  impersonation_id = none;
  admin_id = none;
  admin_session_id = none;
}

record_login-logout_example :
    let (r, rows1) = record_login 100 (codes "s1") 7 (codes "t1") login [] in
    let rows2 = (logout 200 7 rows1).1 in
    (s : UserSession) × (r ≡ ok s)
    × (authenticate_normal_user 150 (codes "t1") claims (ann ∷ []) rows1
        ≡ ok (record { user = ann; session = some s; payload = claims; impersonation = none }))
    × (authenticate_normal_user 250 (codes "t1") claims (ann ∷ []) rows2 ≡ raised token_error)
unfolding get_by_id
record_login-logout_example =
    record_login-logout (ann ∷ []) ann claims refl refl refl 100 (codes "s1") (codes "t1") login []
      tt tt tt tt 150 200 250

abbrev first : UserSession
first = record {
  session_id = codes "s1";
  user_id = 7;
  partner_id = none;
  role_id = none;
  login_datetime = 100;
  logout_datetime = none;
  session_duration_seconds = none;
  session_token = codes "t1";
  previous_session_token = none;
  previous_token_expires_at = none;
  login_source = web;
  client = record {
    ip_address = none;
    browser = codes "Opera";
    browser_version = codes "1";
    operating_system = codes "Linux";
    device_type = codes "Desktop";
  };
  user_agent = none;
  status = active;
}

rotate_session_token-accepts_example :
    let (r, rows') =
      rotate_session_token 500 (codes "s1") (codes "t2") (codes "t1") 30 (first ∷ []) in
    let s' = rotated (500 + 30) (codes "t2") (codes "t1") first in
    (r ≡ ok 1)
    × (get_session_by_token 520 (codes "t2") rows' ≡ some s')
    × (get_session_by_token 520 (codes "t1") rows' ≡ (if ltb 520 (500 + 30) then some s' else none))
    × (rotate_session_token 501 (codes "s1") (codes "t3") (codes "t1") 30 rows' ≡ (ok 0, rows'))
rotate_session_token-accepts_example =
    rotate_session_token-accepts 500 30 520 first (codes "t2") (first ∷ []) (inl (refl, tt))
      (refl, tt) (refl, tt) 501 30 (codes "t3")

-- Every token is Ann's.
abbrev decode : ℕ → Text → Option Payload
decode now token = some claims

abbrev encode : Payload → Text
encode p = codes "t9"

abbrev cfg : Config
cfg = record {
  public_paths = codes "/api/okta/login" ∷ [];
  impersonation_auth_bypass = [];
  jwt_access_token_minutes = 60;
  token_rotation_grace_seconds = 30;
}

abbrev asked : Request
asked = record {
  method = codes "GET";
  path = codes "/api/users";
  authorization = some (codes "Bearer t1");
  cookie = none;
  impersonation_id_header = none;
}

abbrev stores : Stores memory.Server
stores = record { server = empty; users = ann ∷ []; sessions = first ∷ [] }

abbrev untouched : Seen → Stores memory.Server → Stores memory.Server
untouched seen st = st

dispatch-IsServed_example :
    let x = dispatch memory 600 decode encode cfg false 150 151 untouched asked stores in
    ((status : ℕ) × (x ≡ (refused status, stores)))
    ⊎ IsServed memory 600 decode encode cfg false 150 151 asked stores x.0
unfolding is_skipped starts_with normalized_path rstrip
dispatch-IsServed_example =
    dispatch-IsServed memory 600 decode encode cfg false 150 151 asked untouched stores refl refl

abbrev bob : User
bob = record ann { user_id = 1; name = some (codes "Bob"); email = codes "bob@x"; is_admin = true }

abbrev app : AppState memory.Server
app = record {
  world = record {
    server = empty;
    holder = no_session;
    audits = [];
    messages = [];
    sandbox = [];
    users = ann ∷ bob ∷ [];
  };
  sessions = [];
}

-- A JWT library that knows the token of one payload only.
abbrev bob_as_ann : Payload
bob_as_ann = impersonation_payload 7 1 3700 (codes "i1") (codes "s1")

abbrev one_token : Payload → Text
one_token payload = codes "t"

abbrev until_expired : ℕ → Text → Option Payload
until_expired t token = if ltb t 3700 then some bob_as_ann else none

start_route-authenticates_example :
    let (r, st1) =
      start_route memory 600 one_token true true true 10800 100
        (codes "i1")
        1
        (some (codes "s1"))
        (some 7)
        (some 3600)
        app in
    let st2 =
      (logout_route memory 600 one_token true true
        (100 + 800)
        60
        (some
          (record { admin_id = 1; impersonation_id = codes "i1"; admin_session_id = codes "s1" }))
        (later memory 600 one_token 800 st1)).1 in
    ((info : Info) × (r ≡ ok ((info, false), codes "t")))
    × ((authenticate memory 600 until_expired true
          (100 + 800)
          (codes "t")
          (some (codes "i1"))
          (stores_of (later memory 600 one_token 800 st1))).0
        ≡ ok (record {
          user = ann;
          session = none;
          payload = bob_as_ann;
          impersonation = some (record {
            admin_id = 1;
            impersonation_id = codes "i1";
            admin_session_id = codes "s1";
          });
        }))
    × ((authenticate memory 600 until_expired true 950
          (codes "t")
          (some (codes "i1"))
          (stores_of (later memory 600 one_token 50 st2))).0
        ≡ raised token_error)
unfolding get_by_id impersonation_payload
start_route-authenticates_example =
    start_route-authenticates memory 600 one_token (omega arith) 10800 100 (codes "i1") 1 7
      (some 3600) (codes "s1") none app refl refl (inl refl) until_expired bob ann refl refl
      (omega arith) refl refl refl refl (λ t. refl) 800 50 950 60 (omega arith)
