-- ===== src/Monitor/Session/Lifetime.antt =====
-- How often a link is redeemed, and how long a session lasts.
use remote_connect_backend.Base.{
  ℕ, ◌+◌, ◌<◌, ◌≡◌, refl, ◌∙◌, ap, min, true, false, not, ◌&&◌, none, some, is_some, arith, leb,
  Bool-cases, inl, inr,
}
use remote_connect_backend.Base.Text.{Text, ◌≐◌, ≐_self}
use remote_connect_backend.Redis.{Redis, session, redis_get, redis_set, redis_consume_once}
use remote_connect_backend.Redis.Waiting.{get-waited}
use remote_connect_backend.Monitor.Session.{
  MonitorSettings, bootstrap_token_key, session_token_key, generate_session_token, redeem_session,
  is_session_token_valid,
}

session_key-ne-bootstrap_key : (t u : Text) → (session_token_key t ≐ bootstrap_token_key u) ≡ false
unfolding session_token_key bootstrap_token_key
session_key-ne-bootstrap_key t u = refl

module _ (redis : Redis) (settings : MonitorSettings) where
  open redis use {
    Server, get, life, wait, set_ex, delete, get-set_ex, get-delete, life-set_ex, get-wait,
  }

  -- The lifetime of a new session.
  abbrev lasts : ℕ
  lasts = min settings.monitor_token_idle_timeout_seconds settings.monitor_token_ttl_seconds

  module _ (lasts_pos : 0 < lasts) where
    -- The bootstrap token is spent once it is redeemed.
    redeemed_key :
        (now : ℕ) (bootstrap token : Text) (s : Server)
        → settings.monitor_enabled ≡ true
        → get
            (redeem_session redis settings now bootstrap token s).1
            (bootstrap_token_key bootstrap)
          ≡ none
    unfolding redeem_session generate_session_token redis_consume_once redis_set
    redeemed_key now bootstrap token s enabled =
        let bkey = bootstrap_token_key bootstrap in
        let skey = session_token_key token in
        elim (Bool-cases (is_some (get s bkey))) [
          | inl there ↦ ground (
            arith,
            enabled,
            there,
            get-set_ex skey bkey (session now) lasts (delete bkey s) lasts_pos,
            session_key-ne-bootstrap_key token bootstrap,
            get-delete bkey bkey s,
            ≐_self bkey,
          )
          | inr gone ↦ ground (arith, enabled, gone)
        ]

    -- Where the monitor is enabled and the lifetime of a session is positive, a link gives at most one
    -- session: however long after a redemption, another one is refused and changes nothing.
    pub redeem_session-once :
        (now : ℕ) (bootstrap token : Text) (s : Server)
        → settings.monitor_enabled ≡ true
        → (later n : ℕ) (again : Text)
        → let s' = wait n (redeem_session redis settings now bootstrap token s).1 in
          redeem_session redis settings later bootstrap again s' ≡ (none, s')
    unfolding redeem_session redis_consume_once
    redeem_session-once now bootstrap token s enabled later n again =
        let s1 = (redeem_session redis settings now bootstrap token s).1 in
        let spent : get (wait n s1) (bootstrap_token_key bootstrap) ≡ none =
          get-wait n s1 (bootstrap_token_key bootstrap)
          ∙ ground (arith, redeemed_key now bootstrap token s enabled) in
        ground (arith, enabled, spent)

    -- Where the monitor is enabled and the lifetime of a session is positive, a new session that is not
    -- used is valid exactly as long as the idle timeout and the lifetime of a token.
    pub is_session_token_valid-new :
        (now n : ℕ) (token : Text) (s : Server)
        → settings.monitor_enabled ≡ true
        → (is_session_token_valid redis settings
            (now + n)
            token
            (wait n (generate_session_token redis settings now token s).1)).0
          ≡ (not (leb settings.monitor_token_idle_timeout_seconds n)
              && not (leb settings.monitor_token_ttl_seconds n))
    unfolding is_session_token_valid generate_session_token redis_get redis_set
    is_session_token_valid-new now n token s enabled = ground (
      arith,
      enabled,
      get-waited redis n (session_token_key token) (session now) lasts s lasts_pos,
    )

  -- Where the monitor is enabled and the idle timeout is positive, a session that has just been found
  -- valid stays so exactly as long as the idle timeout from then, and the lifetime of a token from its
  -- creation.
  pub is_session_token_valid-again :
      (now created n : ℕ) (token : Text) (s : Server)
      → 0 < settings.monitor_token_idle_timeout_seconds
      → settings.monitor_enabled ≡ true
      → get s (session_token_key token) ≡ some (session created)
      → (is_session_token_valid redis settings now token s).0 ≡ true
      → (is_session_token_valid redis settings
          (now + n)
          token
          (wait n (is_session_token_valid redis settings now token s).1)).0
        ≡ (not (leb settings.monitor_token_idle_timeout_seconds n)
            && not (leb (created + settings.monitor_token_ttl_seconds) (now + n)))
  unfolding is_session_token_valid redis_get redis_set
  is_session_token_valid-again now created n token s idle_pos enabled here valid =
      let key = session_token_key token in
      let idle = settings.monitor_token_idle_timeout_seconds in
      let after : (is_session_token_valid redis settings now token s).1
          ≡ set_ex key (session created) idle s =
        ground (arith, enabled, here, valid) in
      ap (λ x. (is_session_token_valid redis settings (now + n) token (wait n x)).0) after
      ∙ ground (arith, enabled, get-waited redis n key (session created) idle s idle_pos)
