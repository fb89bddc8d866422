-- ===== src/Monitor/Session.antt =====
-- apps/app/modules/monitor/services/monitor_session_service.py over the Redis server. The random
-- tokens and the time are arguments; times are whole seconds.
pub mod Lifetime
use remote_connect_backend.Base.{
  ℕ, ◌+◌, min, Bool, true, false, Option, none, some, List, [], ◌++◌, if◌then◌else◌, leb,
}
use remote_connect_backend.Base.Text.{Text, codes}
use remote_connect_backend.Base.Action.{Result, ok, raised, runtime_error}
use remote_connect_backend.Redis.{
  Redis, Value, raw, session, redis_get, redis_set, redis_delete, redis_consume_once,
}

-- The settings that the service reads.
pub record MonitorSettings : Type 0 where
  pub monitor_enabled : Bool
  pub monitor_token_ttl_seconds : ℕ
  pub monitor_token_idle_timeout_seconds : ℕ

unfoldable pub bootstrap_token_key : Text → Text
bootstrap_token_key token = codes "monitor:bootstrap:" ++ token

unfoldable pub session_token_key : Text → Text
session_token_key token = codes "monitor:session:" ++ token

module _ (redis : Redis) (settings : MonitorSettings) where
  open redis use {Server}

  unfoldable pub generate_bootstrap_token : Text → Server → Result (Text × ℕ) × Server
  generate_bootstrap_token token s =
      if settings.monitor_enabled
      then (
        ok (token, settings.monitor_token_ttl_seconds),
        redis_set redis (bootstrap_token_key token) (raw (codes "1"))
            (some settings.monitor_token_ttl_seconds) s,
      )
      else (raised runtime_error, s)

  unfoldable pub generate_session_token : ℕ → Text → Server → (Text × ℕ) × Server
  generate_session_token now token s = (
    (token, settings.monitor_token_ttl_seconds),
    redis_set redis (session_token_key token) (session now)
        (some (min settings.monitor_token_idle_timeout_seconds settings.monitor_token_ttl_seconds))
        s,
  )

  abbrev pub session_after : ℕ → Text → Bool × Server → Option (Text × ℕ) × Server
  session_after now token (false, s) = (none, s)
  session_after now token (true, s) =
      let (issued, s') = generate_session_token now token s in (some issued, s')

  unfoldable pub redeem_session : ℕ → Text → Text → Server → Option (Text × ℕ) × Server
  redeem_session now bootstrap_token token s =
      if settings.monitor_enabled
      then session_after now token
          (redis_consume_once redis (bootstrap_token_key bootstrap_token) s)
      else (none, s)

  -- What is found under the session's key: an empty text is nothing, and any other has no time of its
  -- creation.
  abbrev pub check_session : ℕ → Text → Option Value → Server → Bool × Server
  check_session now key none s = (false, s)
  check_session now key (some (raw [])) s = (false, s)
  check_session now key (some (session created)) s =
      if leb (created + settings.monitor_token_ttl_seconds) now
      then (false, redis_delete redis key s)
      else (
        true,
        redis_set redis key (session created) (some settings.monitor_token_idle_timeout_seconds) s,
      )
  check_session now key (some _) s = (false, redis_delete redis key s)

  unfoldable pub is_session_token_valid : ℕ → Text → Server → Bool × Server
  is_session_token_valid now token s =
      if settings.monitor_enabled
      then check_session now (session_token_key token) (redis_get redis (session_token_key token) s)
          s
      else (false, s)
