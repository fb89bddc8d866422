-- ===== src/RateLimiting/Tests.antt =====
-- The sliding window and the middlewares at concrete inputs.
use remote_connect_backend.Base.{
  ℕ, ◌+◌, ◌-◌, ◌≤◌, ◌<◌, ◌≡◌, refl, true, none, some, List, [], ◌∷◌, arith, if◌then◌else◌,
}
use remote_connect_backend.Base.Text.{codes}
use remote_connect_backend.Redis.{redis_get}
use remote_connect_backend.Redis.Memory.{memory, empty}
use remote_connect_backend.Authorization.{normalized_path, rstrip}
use remote_connect_backend.Base.Strip.{strip_start, strip_end}
use remote_connect_backend.RateLimiting.Window.{
  Limiter, let_through, found, drop_old, check_and_record, try_record_hit,
}
use remote_connect_backend.RateLimiting.Window.Counting.{in_window}
use remote_connect_backend.RateLimiting.Window.Bound.{Ascending, let_through-in_window}
use remote_connect_backend.RateLimiting.Middleware.{
  Request, Store, limited, passed, UserSettings, PathSettings, rate_key, before_comma, client_ip,
  override_of, cooldown_is_active, cool_down, record_hit, get_active_block, path_dispatch,
  user_dispatch,
}
use remote_connect_backend.RateLimiting.Middleware.Lockout.{
  all_answer, IsPast, is_full, after, user_dispatch-lockout,
}
use remote_connect_backend.RateLimiting.Middleware.Cooldown.{
  IsInsisting, all_limited, replies_from, path_dispatch-insisting,
}

abbrev two_a_minute : Limiter
two_a_minute = record { window_seconds = 60; max_hits = 2 }

abbrev times : List ℕ
times = 5 ∷ 10 ∷ 20 ∷ 64 ∷ 65 ∷ 66 ∷ []

times-Ascending : Ascending 0 times
times-Ascending =
    (omega arith, (omega arith, (omega arith, (omega arith, (omega arith, (omega arith, tt))))))

let_through-in_window_example :
    in_window 66 60 (let_through two_a_minute times ([], record { hits = []; expires = none })).0
    ≤ 2
let_through-in_window_example = let_through-in_window two_a_minute times times-Ascending 66

abbrev visit : Request
visit = record {
  method = codes "GET";
  path = codes "/public/";
  forwarded_for = some (codes " 10.0.0.1 , 10.0.0.2");
  client_host = none;
  state_user_id = some 7;
}

visit-client_ip : client_ip visit ≡ codes "10.0.0.1"
unfolding client_ip before_comma strip_start strip_end
visit-client_ip = refl

abbrev crowded : Store memory.Server
crowded = record {
  server = empty;
  buckets = λ _. record { hits = 95 ∷ 90 ∷ []; expires = some 155 };
}

abbrev users_limits : UserSettings
users_limits = record { user_limiter = two_a_minute; user_block_duration_seconds = 300 }

user_dispatch-lockout_example :
    let full = is_full two_a_minute 100 (crowded.buckets (rate_key 7)) in
    let (reply, st1) = user_dispatch memory all_answer users_limits 100 visit crowded in
    let again =
      user_dispatch memory all_answer users_limits
        (100 + 40)
        visit
        (after memory users_limits 40 st1) in
    (reply ≡ (if full then limited 300 else passed))
    × (full ≡ true → 40 < 300 → again ≡ (limited (300 - 40), after memory users_limits 40 st1))
    × (full ≡ true → 300 ≤ 40 → again.0 ≡ passed)
unfolding get_active_block redis_get IsPast
user_dispatch-lockout_example =
    user_dispatch-lockout memory users_limits 100 7 visit crowded (omega arith) (omega arith)
      (omega arith) refl refl (omega arith, (omega arith, tt)) 40 visit refl

abbrev public_limits : PathSettings
public_limits = record {
  rate_limited_paths = codes "/public" ∷ [];
  rate_limit_overrides = [];
  public_limiter = two_a_minute;
  cooldown_seconds = 300;
}

abbrev impatient : List (ℕ × Request)
impatient = (299, visit) ∷ (100, visit) ∷ []

path_dispatch-insisting_example :
    replies_from memory public_limits 100 impatient
      (path_dispatch memory all_answer public_limits 100 visit crowded).1
    ≡ all_limited public_limits impatient
unfolding path_dispatch normalized_path rstrip record_hit try_record_hit check_and_record cool_down
    cooldown_is_active override_of drop_old found IsInsisting
path_dispatch-insisting_example =
    path_dispatch-insisting memory public_limits 100 visit crowded impatient (omega arith) refl refl
      (omega arith, refl, refl, (omega arith, refl, refl, tt))
