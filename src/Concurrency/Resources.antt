-- ===== src/Concurrency/Resources.antt =====
-- apps/app/utils/task_concurrency.py: claiming an execution slot and a task's lock, binding them
-- to a task id, and releasing what a task id is bound to. An owner token (`uuid.uuid4().hex`) is
-- an argument, and the Lua script of the source is the recursion `claim_first_free_slot`.
pub mod Claiming
pub mod Binding
pub mod Takeover
use remote_connect_backend.Base.{
  ℕ, ◌≡◌, Bool, true, false, Option, none, some, is_some, List, [], ◌∷◌, if◌then◌else◌,
}
use remote_connect_backend.Base.Text.{Text}
use remote_connect_backend.Base.Action.{Result, ok, raised, value_error, key_error}
use remote_connect_backend.Redis.{
  Redis, Value, raw, binding, redis_get, redis_set, redis_set_nx, redis_delete,
  redis_delete_if_value_matches,
}
use remote_connect_backend.Concurrency.Keys.{
  slot_keys, MapPrefix, map_key, task_slot_map_prefix, task_lock_map_prefix,
}

-- `settings.max_running_tasks` and `settings.scheduler_stale_task_timeout_seconds`.
pub record Limits : Type 0 where
  pub max_running_tasks : ℕ
  pub task_lock_ttl_seconds : ℕ

module _ (redis : Redis) (limits : Limits) where
  open redis use {Server}

  pub claim_first_free_slot : List Text → Text → Server → Option Text × Server
  unfolding redis_set_nx
  claim_first_free_slot [] owner_token s = (none, s)
  claim_first_free_slot (key ∷ keys) owner_token s =
      let (done, s') = redis_set_nx redis key (raw owner_token) limits.task_lock_ttl_seconds s in
      elim done [ true ↦ (some key, s') | false ↦ claim_first_free_slot keys owner_token s' ]

  pub reserve_task_slot : Text → Server → Option (Text × Text) × Server
  unfolding claim_first_free_slot
  reserve_task_slot owner_token s =
      let (claimed, s') =
        claim_first_free_slot (slot_keys limits.max_running_tasks) owner_token s in
      elim claimed [ none ↦ (none, s') | some key ↦ (some (key, owner_token), s') ]

  -- `if not task_id` holds of `None` and of the empty text.
  pub bind_task_id_to_resource : Option Text → MapPrefix → Text → Text → Server → Server
  unfolding redis_set redis_delete_if_value_matches
  bind_task_id_to_resource (some (c ∷ id)) map_key_prefix resource_key owner_token s =
      redis_set redis (map_key map_key_prefix (c ∷ id)) (binding resource_key owner_token)
        (some limits.task_lock_ttl_seconds) s
  bind_task_id_to_resource _ map_key_prefix resource_key owner_token s =
      (redis_delete_if_value_matches redis resource_key owner_token s).1

  -- `json.loads` raises on a text that is no document, and the subscripts on one of other keys.
  release_mapped : Option Value → Server → Result (Unit {0}) × Server
  unfolding redis_delete_if_value_matches
  release_mapped none s = (ok tt, s)
  release_mapped (some (raw [])) s = (ok tt, s)
  release_mapped (some (raw (c ∷ t))) s = (raised value_error, s)
  release_mapped (some (binding resource_key owner_token)) s =
      (ok tt, (redis_delete_if_value_matches redis resource_key owner_token s).1)
  release_mapped (some _) s = (raised key_error, s)

  unfoldable pub release_task_resource_by_id :
      Option Text → MapPrefix → Server → Result (Unit {0}) × Server
  unfolding release_mapped redis_get redis_delete
  release_task_resource_by_id (some (c ∷ id)) map_key_prefix s =
      let key = map_key map_key_prefix (c ∷ id) in
      let (r, s') = release_mapped (redis_get redis key s) s in
      elim r [ ok _ ↦ (ok tt, redis_delete redis key s') | raised e ↦ (raised e, s') ]
  release_task_resource_by_id _ map_key_prefix s = (ok tt, s)

  pub bind_task_id_to_slot : Option Text → Text → Text → Server → Server
  unfolding bind_task_id_to_resource
  bind_task_id_to_slot task_id = bind_task_id_to_resource task_id task_slot_map_prefix

  pub map_task_to_lock : Option Text → Text → Text → Server → Server
  unfolding bind_task_id_to_resource
  map_task_to_lock task_id = bind_task_id_to_resource task_id task_lock_map_prefix

  unfoldable pub release_execution_slot : Option Text → Server → Result (Unit {0}) × Server
  unfolding release_task_resource_by_id
  release_execution_slot task_id = release_task_resource_by_id task_id task_slot_map_prefix

  unfoldable pub unlock_task_execution : Option Text → Server → Result (Unit {0}) × Server
  unfolding release_task_resource_by_id
  unlock_task_execution task_id = release_task_resource_by_id task_id task_lock_map_prefix

  pub try_lock_task : Text → Text → Server → Option Text × Server
  unfolding redis_set_nx
  try_lock_task lock_key owner_token s =
      let (acquired, s') =
        redis_set_nx redis lock_key (raw owner_token) limits.task_lock_ttl_seconds s in
      (if acquired then some owner_token else none, s')

  pub unlock_task : Text → Text → Server → Server
  unfolding redis_delete_if_value_matches
  unlock_task lock_key owner_token s =
      (redis_delete_if_value_matches redis lock_key owner_token s).1
