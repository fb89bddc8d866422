-- ===== src/RateLimiting/Middleware.antt =====
-- apps/app/core/rate_limiting/middleware and user_blocking.py: the limits on paths and on users. `up`
-- tells of each call of Redis whether it answers; a write that it does not answer raises. The buckets
-- are the sorted sets under their keys, and times are whole seconds.
pub mod Lockout
pub mod Cooldown
use remote_connect_backend.Base.{
  ℕ, ◌+◌, ◌-◌, Bool, true, false, Option, none, some, List, [], ◌∷◌, ◌++◌, if◌then◌else◌, ltb, ◌==◌,
}
use remote_connect_backend.Base.Text.{Text, codes, str, contains, ◌≐◌}
use remote_connect_backend.Redis.{Redis, Value, raw, user_block, redis_get, redis_set}
use remote_connect_backend.RateLimiting.Window.{Bucket, Limiter, try_record_hit}
use remote_connect_backend.Authorization.{normalized_path}
use remote_connect_backend.Sessions.Devices.{given}
use remote_connect_backend.Base.Strip.{strip_start, strip_end}

pub record Request : Type 0 where
  pub method : Text
  pub path : Text
  pub forwarded_for : Option Text
  pub client_host : Option Text
  pub state_user_id : Option ℕ

-- Whether Redis answers the first read, the script of the limiter and the last write.
pub record Answers : Type 0 where
  pub reads : Bool
  pub counts : Bool
  pub writes : Bool

-- The request is handed on; it is answered by 429 with a number for Retry-After; or Redis has raised.
pub data Reply : Type 0 where
  passed : Reply
  limited : ℕ → Reply
  redis_failed : Reply

pub record Store (Server : Type 0) : Type 0 where
  pub server : Server
  pub buckets : Text → Bucket

abbrev pub set_bucket : Text → Bucket → (Text → Bucket) → Text → Bucket
set_bucket key b buckets j = if key ≐ j then b else buckets j

pub record PathSettings : Type 0 where
  pub rate_limited_paths : List Text
  pub rate_limit_overrides : List (Text × (ℕ × ℕ))
  pub public_limiter : Limiter
  pub cooldown_seconds : ℕ

pub record UserSettings : Type 0 where
  pub user_limiter : Limiter
  pub user_block_duration_seconds : ℕ

-- `split(",")[0]`
unfoldable pub before_comma : Text → Text
before_comma [] = []
before_comma (c ∷ cs) = let rest = before_comma cs in if c == 44 then [] else c ∷ rest

abbrev pub host_or_unknown : Option Text → Text
host_or_unknown none = codes "unknown"
host_or_unknown (some host) = host

abbrev pub forwarded_or_host : Option Text → Option Text → Text
forwarded_or_host (some forwarded) host = strip_start (strip_end (before_comma forwarded))
forwarded_or_host none host = host_or_unknown host

unfoldable pub client_ip : Request → Text
client_ip r = forwarded_or_host (given r.forwarded_for) r.client_host

unfoldable pub client_key : Request → Text
client_key r = client_ip r ++ codes ":" ++ normalized_path r.path

unfoldable pub cooldown_key : Request → Text
cooldown_key r = codes "myapp:central-command:__rate_limit_cooldown__:" ++ client_key r

unfoldable pub hit_key : Request → Text
hit_key r = codes "myapp:central-command:__rate_limit__:" ++ client_key r

unfoldable pub rate_key : ℕ → Text
rate_key user = codes "myapp:central-command:__user_rate_limit__:" ++ str user

unfoldable pub block_key : ℕ → Text
block_key user = codes "myapp:central-command:__user_block__:" ++ str user

-- `.get(path, (None, None))`
unfoldable pub override_of : Text → List (Text × (ℕ × ℕ)) → Option ℕ × Option ℕ
override_of path [] = (none, none)
override_of path ((p, (window, hits)) ∷ rest) =
    if p ≐ path then (some window, some hits) else override_of path rest

-- TTL is negative for a key that is not there or never expires.
abbrev pub is_positive : Option ℕ → Bool
is_positive none = false
is_positive (some t) = ltb 0 t

-- The end of the block that is found under a user's key, where nothing else is written.
abbrev pub block_end : Option Value → Option ℕ
block_end (some (user_block blocked_at expires_at)) = some expires_at
block_end _ = none

module _ (redis : Redis) where
  open redis use {Server, life}

  unfoldable pub cooldown_is_active : Bool → Text → Server → Bool
  cooldown_is_active false key s = false
  cooldown_is_active true key s = is_positive (life s key)

  -- `start_or_renew` and the answer after it.
  unfoldable pub cool_down : Bool → PathSettings → Text → Store Server → Reply × Store Server
  cool_down false cfg key st = (redis_failed, st)
  cool_down true cfg key st = (
    limited cfg.cooldown_seconds,
    record st {
      server = redis_set redis key (raw (codes "1")) (some cfg.cooldown_seconds) st.server;
    },
  )

  unfoldable pub record_hit :
      Limiter → Option ℕ × Option ℕ → Bool → ℕ → Text → Store Server → Bool × Store Server
  record_hit limiter (window, hits) up now key st =
      let (allowed, b) = try_record_hit limiter window hits up now (st.buckets key) in
      (allowed, record st { buckets = set_bucket key b st.buckets })

  abbrev pub pass_or_cool_down :
      Bool → PathSettings → Text → Bool × Store Server → Reply × Store Server
  pass_or_cool_down up cfg key (true, st) = (passed, st)
  pass_or_cool_down up cfg key (false, st) = cool_down up cfg key st

  abbrev pub count_path_hit :
      Answers → PathSettings → ℕ → Request → Store Server → Reply × Store Server
  count_path_hit up cfg now r st = pass_or_cool_down up.writes cfg (cooldown_key r) (
      record_hit cfg.public_limiter (override_of (normalized_path r.path) cfg.rate_limit_overrides)
        up.counts now (hit_key r) st)

  -- `PathRateLimitMiddleware.dispatch`
  unfoldable pub path_dispatch :
      Answers → PathSettings → ℕ → Request → Store Server → Reply × Store Server
  path_dispatch up cfg now r st =
      if r.method ≐ codes "OPTIONS"
      then (passed, st)
      else if contains (normalized_path r.path) cfg.rate_limited_paths
      then (if cooldown_is_active up.reads (cooldown_key r) st.server
          then cool_down up.writes cfg (cooldown_key r) st
          else count_path_hit up cfg now r st)
      else (passed, st)

  unfoldable pub get_active_block : Bool → ℕ → Server → Option ℕ
  get_active_block false user s = none
  get_active_block true user s = block_end (redis_get redis (block_key user) s)

  -- `block_user` and the answer after it.
  unfoldable pub block_user : Bool → UserSettings → ℕ → ℕ → Store Server → Reply × Store Server
  block_user false cfg now user st = (redis_failed, st)
  block_user true cfg now user st =
      let duration = cfg.user_block_duration_seconds in
      (
        limited duration,
        record st {
          server =
              redis_set redis (block_key user) (user_block now (now + duration)) (some duration)
                st.server;
        },
      )

  abbrev pub pass_or_block :
      Bool → UserSettings → ℕ → ℕ → Bool × Store Server → Reply × Store Server
  pass_or_block up cfg now user (true, st) = (passed, st)
  pass_or_block up cfg now user (false, st) = block_user up cfg now user st

  abbrev pub block_check :
      Answers → UserSettings → ℕ → ℕ → Option ℕ → Store Server → Reply × Store Server
  block_check up cfg now user (some expires_at) st = (limited (expires_at - now), st)
  block_check up cfg now user none st =
      pass_or_block up.writes cfg now user
        (record_hit cfg.user_limiter (none, none) up.counts now (rate_key user) st)

  abbrev pub of_user : Answers → UserSettings → ℕ → Option ℕ → Store Server → Reply × Store Server
  of_user up cfg now none st = (passed, st)
  of_user up cfg now (some user) st =
      block_check up cfg now user (get_active_block up.reads user st.server) st

  -- `UserRateLimitMiddleware.dispatch`
  unfoldable pub user_dispatch :
      Answers → UserSettings → ℕ → Request → Store Server → Reply × Store Server
  user_dispatch up cfg now r st = of_user up cfg now r.state_user_id st
