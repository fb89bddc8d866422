-- ===== src/Redis/Waiting.antt =====
-- A key that was written with an expiry, after some time.
use remote_connect_backend.Base.{ℕ, ◌<◌, ◌≡◌, ◌∙◌, ap, none, some, arith, if◌then◌else◌}
use remote_connect_backend.Base.Text.{Text, ≐_self}
use remote_connect_backend.Redis.{Redis, Value, survives}

module _ (redis : Redis) where
  open redis use {Server, get, life, wait, set_ex, get-set_ex, life-set_ex, get-wait, life-wait}

  pub get-waited :
      (n : ℕ) (key : Text) (v : Value) (t : ℕ) (s : Server)
      → 0 < t
      → get (wait n (set_ex key v t s)) key ≡ (if survives n (some t) then some v else none)
  get-waited n key v t s pos =
      get-wait n (set_ex key v t s) key
      ∙ ap (λ o. if survives n o then get (set_ex key v t s) key else none) {y = some t}
          (ground (arith, life-set_ex key key v t s pos, ≐_self key))
      ∙ ap (λ o. if survives n (some t) then o else none) {y = some v}
          (ground (arith, get-set_ex key key v t s pos, ≐_self key))
