-- ===== src/Redis.antt =====
-- apps/app/utils/redis.py: the helpers over a Redis server. The server is not code of the
-- repository, so its commands are the fields of `Redis`, with the laws that the Redis
-- documentation gives for them; `Redis.Memory` is a concrete server that meets the laws.
pub mod Memory
pub mod Waiting
use remote_connect_backend.Base.{
  ℕ, ◌≡◌, ◌<◌, ◌-◌, Bool, true, false, Option, none, some, is_some, leb, if◌then◌else◌,
}
use remote_connect_backend.Base.Text.{Text, ◌≐◌}

-- What the modelled code stores under a key. A JSON document that the code writes by `json.dumps`
-- and reads by `json.loads` is kept as the record that it encodes; `raw` is any other text, the
-- owner tokens and the heartbeat mark "1".
pub data Value : Type 0 where
  raw : Text → Value
  binding : Text → Text → Value
  last_enqueued : ℕ → Value
  active : Text → ℕ → ℕ → ℕ → ℕ → Value
  session : ℕ → Value
  user_block : ℕ → ℕ → Value

-- What a key's clock shows after `n` seconds: the rest of its life, if it has one.
abbrev pub aged : ℕ → Option ℕ → Option ℕ
aged n none = none
aged n (some t) = if leb t n then none else some (t - n)

abbrev pub survives : ℕ → Option ℕ → Bool
survives n none = true
survives n (some t) = if leb t n then false else true

pub record Redis : Type 1 where
  pub Server : Type 0
  -- GET, SET, SET … EX, DEL; `life` is what TTL reports of a key with an expiry.
  pub get : Server → Text → Option Value
  pub life : Server → Text → Option ℕ
  pub set : Text → Value → Server → Server
  pub set_ex : Text → Value → ℕ → Server → Server
  pub set_nx_ex : Text → Value → ℕ → Server → Server
  pub delete : Text → Server → Server
  -- `wait n`: n seconds pass and no command is sent.
  pub wait : ℕ → Server → Server
  pub get-set :
      (k j : Text) (v : Value) (s : Server)
      → get (set k v s) j ≡ (if k ≐ j then some v else get s j)
  pub get-set_ex :
      (k j : Text) (v : Value) (t : ℕ) (s : Server)
      → 0 < t
      → get (set_ex k v t s) j ≡ (if k ≐ j then some v else get s j)
  pub get-delete :
      (k j : Text) (s : Server) → get (delete k s) j ≡ (if k ≐ j then none else get s j)
  -- NX: the key is written only if it is not there.
  pub set_nx_ex_lem :
      (k : Text) (v : Value) (t : ℕ) (s : Server)
      → set_nx_ex k v t s ≡ (if is_some (get s k) then s else set_ex k v t s)
  pub life-set :
      (k j : Text) (v : Value) (s : Server)
      → life (set k v s) j ≡ (if k ≐ j then none else life s j)
  pub life-set_ex :
      (k j : Text) (v : Value) (t : ℕ) (s : Server)
      → 0 < t
      → life (set_ex k v t s) j ≡ (if k ≐ j then some t else life s j)
  pub life-delete :
      (k j : Text) (s : Server) → life (delete k s) j ≡ (if k ≐ j then none else life s j)
  pub get-wait :
      (n : ℕ) (s : Server) (j : Text)
      → get (wait n s) j ≡ (if survives n (life s j) then get s j else none)
  pub life-wait : (n : ℕ) (s : Server) (j : Text) → life (wait n s) j ≡ aged n (life s j)

-- Lua's `redis.call('GET', KEYS[1]) == ARGV[1]`. A JSON document differs from every owner token.
abbrev pub holds : Option Value → Text → Bool
holds (some (raw t)) expected = t ≐ expected
holds _ expected = false

module _ (redis : Redis) where
  open redis use {Server, get, set, set_ex, set_nx_ex, delete}

  unfoldable pub redis_set : Text → Value → Option ℕ → Server → Server
  redis_set key v none s = set key v s
  redis_set key v (some ex) s = set_ex key v ex s

  unfoldable pub redis_get : Text → Server → Option Value
  redis_get key s = get s key

  unfoldable pub redis_delete : Text → Server → Server
  redis_delete key s = delete key s

  -- The reply of SET NX is `OK`, or nil where the key was there.
  unfoldable pub redis_set_nx : Text → Value → ℕ → Server → Bool × Server
  redis_set_nx key v ttl s = (if is_some (get s key) then false else true, set_nx_ex key v ttl s)

  -- DEL replies 1 for a key that is there.
  unfoldable pub redis_delete_if_value_matches : Text → Text → Server → Bool × Server
  redis_delete_if_value_matches key expected s =
      if holds (get s key) expected then (true, delete key s) else (false, s)

  unfoldable pub redis_consume_once : Text → Server → Bool × Server
  redis_consume_once key s = if is_some (get s key) then (true, delete key s) else (false, s)
