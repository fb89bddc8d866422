-- ===== src/Concurrency/Resources/Binding.antt =====
-- What binding a task id to a slot or a lock leaves, and what releasing by the task id frees
-- (`_bind_task_id_to_resource`, `_release_task_resource_by_id` and their four callers).
use remote_connect_backend.Base.{
  ℕ, ◌<◌, ◌≡◌, refl, ap, ◌&&◌, Option, none, some, is_some, ◌∷◌, arith, if◌then◌else◌,
}
use remote_connect_backend.Base.Text.{Text, ◌≐◌, eq_of-≐}
use remote_connect_backend.Base.Action.{ok}
use remote_connect_backend.Redis.{
  Redis, Value, raw, binding, holds, redis_delete, redis_delete_if_value_matches,
}
use remote_connect_backend.Concurrency.Keys.{
  MapPrefix, map_key, task_slot_map_prefix, task_lock_map_prefix,
}
use remote_connect_backend.Concurrency.Resources.{
  Limits, bind_task_id_to_resource, release_task_resource_by_id, bind_task_id_to_slot,
  map_task_to_lock, release_execution_slot, unlock_task_execution, try_lock_task, unlock_task,
}

module _ (redis : Redis) where
  open redis use {Server, get, get-delete}

  pub get-delete_if_value_matches :
      (key expected : Text) (s : Server) (j : Text)
      → get (redis_delete_if_value_matches redis key expected s).1 j
        ≡ (if key ≐ j && holds (get s key) expected then none else get s j)
  unfolding redis_delete_if_value_matches
  get-delete_if_value_matches key expected s j = ground (arith, get-delete key j s)

  -- What a release by the map key `key` leaves under the key `j`.
  abbrev pub after_release : Text → Server → Text → Option Value
  after_release key s j = if key ≐ j then none else elim (get s key) [
    | some (binding resource_key owner_token) ↦
        if resource_key ≐ j && holds (get s resource_key) owner_token then none else get s j
    | _ ↦ get s j
  ]

module _ (redis : Redis) (limits : Limits) where
  open redis use {Server, get, set_ex, get-set_ex, get-delete, set_nx_ex_lem}

  release_bound :
      (c : ℕ) (id : Text) (prefix : MapPrefix) (resource_key owner_token : Text) (s : Server)
      → get s (map_key prefix (c ∷ id)) ≡ some (binding resource_key owner_token)
      → release_task_resource_by_id redis limits (some (c ∷ id)) prefix s ≡ (
        ok tt,
        redis_delete redis
            (map_key prefix (c ∷ id))
            (redis_delete_if_value_matches redis resource_key owner_token s).1,
      )
  unfolding release_task_resource_by_id redis_delete_if_value_matches redis_delete
  release_bound c id prefix resource_key owner_token s bound = ground (arith, bound)

  get-release_bound :
      (c : ℕ) (id : Text) (prefix : MapPrefix) (resource_key owner_token : Text) (s : Server)
      (j : Text)
      → get s (map_key prefix (c ∷ id)) ≡ some (binding resource_key owner_token)
      → get (release_task_resource_by_id redis limits (some (c ∷ id)) prefix s).1 j
        ≡ after_release redis (map_key prefix (c ∷ id)) s j
  unfolding redis_delete
  get-release_bound c id prefix resource_key owner_token s j bound =
      rw (release_bound c id prefix resource_key owner_token s bound)
        (simp (get-delete, get-delete_if_value_matches redis, bound))

  -- A release by a task id never raises on what the code stores under a map key, and it frees the
  -- bound resource exactly if that still holds the bound owner token: a slot or lock that has
  -- expired and gone to another owner is left alone. The mapping itself is deleted.
  pub release_by_id_lem :
      (c : ℕ) (id : Text) (prefix : MapPrefix) (resource_key owner_token : Text) (s : Server)
      → get s (map_key prefix (c ∷ id)) ≡ some (binding resource_key owner_token)
      → let (r, s') = release_task_resource_by_id redis limits (some (c ∷ id)) prefix s in
        (r ≡ ok tt) × ((j : Text) → get s' j ≡ after_release redis (map_key prefix (c ∷ id)) s j)
  release_by_id_lem c id prefix resource_key owner_token s bound = (
    ap (λ p. p.0) (release_bound c id prefix resource_key owner_token s bound),
    λ j. get-release_bound c id prefix resource_key owner_token s j bound,
  )

  unmapped_step :
      (c : ℕ) (id : Text) (prefix : MapPrefix) (s : Server)
      → get s (map_key prefix (c ∷ id)) ≡ none
      → release_task_resource_by_id redis limits (some (c ∷ id)) prefix s
        ≡ (ok tt, redis_delete redis (map_key prefix (c ∷ id)) s)
  unfolding release_task_resource_by_id redis_delete
  unmapped_step c id prefix s unmapped = ground (arith, unmapped)

  delete_missing :
      (key : Text) (s : Server) (j : Text)
      → get s key ≡ none
      → get (redis_delete redis key s) j ≡ get s j
  unfolding redis_delete
  delete_missing key s j missing =
      ground (arith, get-delete key j s, eq_of-≐ key j, ap (get s) {x = key} {y = j})

  -- Where nothing is mapped, a release by a task id succeeds and changes no key.
  pub release_unmapped :
      (c : ℕ) (id : Text) (prefix : MapPrefix) (s : Server)
      → get s (map_key prefix (c ∷ id)) ≡ none
      → let (r, s') = release_task_resource_by_id redis limits (some (c ∷ id)) prefix s in
        (r ≡ ok tt) × ((j : Text) → get s' j ≡ get s j)
  release_unmapped c id prefix s unmapped = (
    ap (λ p. p.0) (unmapped_step c id prefix s unmapped),
    λ j.
        rw (unmapped_step c id prefix s unmapped)
          (delete_missing (map_key prefix (c ∷ id)) s j unmapped),
  )

  -- `release_execution_slot` and `unlock_task_execution` are this release at their two prefixes.
  pub release_execution_slot_lem :
      (task_id : Option Text)
      → release_execution_slot redis limits task_id
        ≡ release_task_resource_by_id redis limits task_id task_slot_map_prefix
  unfolding release_execution_slot
  release_execution_slot_lem task_id = refl

  pub unlock_task_execution_lem :
      (task_id : Option Text)
      → unlock_task_execution redis limits task_id
        ≡ release_task_resource_by_id redis limits task_id task_lock_map_prefix
  unfolding unlock_task_execution
  unlock_task_execution_lem task_id = refl

  pub get-unlock_task :
      (key owner_token : Text) (s : Server) (j : Text)
      → get (unlock_task redis limits key owner_token s) j
        ≡ (if key ≐ j && holds (get s key) owner_token then none else get s j)
  unfolding unlock_task
  get-unlock_task key owner_token s j = get-delete_if_value_matches redis key owner_token s j

  module _ (ttl_pos : 0 < limits.task_lock_ttl_seconds) where
    pub get-bind :
        (c : ℕ) (id : Text) (prefix : MapPrefix) (resource_key owner_token : Text) (s : Server)
        (j : Text)
        → get
            (bind_task_id_to_resource redis limits
              (some (c ∷ id))
              prefix
              resource_key
              owner_token
              s)
            j
          ≡ (if map_key prefix (c ∷ id) ≐ j
              then some (binding resource_key owner_token)
              else get s j)
    unfolding bind_task_id_to_resource
    get-bind c id prefix resource_key owner_token s j =
        get-set_ex (map_key prefix (c ∷ id)) j (binding resource_key owner_token)
          limits.task_lock_ttl_seconds s ttl_pos

    pub get-bind_task_id_to_slot :
        (c : ℕ) (id slot_key slot_token : Text) (s : Server) (j : Text)
        → get (bind_task_id_to_slot redis limits (some (c ∷ id)) slot_key slot_token s) j ≡ (
            if map_key task_slot_map_prefix (c ∷ id) ≐ j
            then some (binding slot_key slot_token)
            else get s j)
    unfolding bind_task_id_to_slot
    get-bind_task_id_to_slot c id = get-bind c id task_slot_map_prefix

    pub get-map_task_to_lock :
        (c : ℕ) (id lock_key owner_token : Text) (s : Server) (j : Text)
        → get (map_task_to_lock redis limits (some (c ∷ id)) lock_key owner_token s) j ≡ (
            if map_key task_lock_map_prefix (c ∷ id) ≐ j
            then some (binding lock_key owner_token)
            else get s j)
    unfolding map_task_to_lock
    get-map_task_to_lock c id = get-bind c id task_lock_map_prefix

    -- `try_lock_task` takes the lock exactly if nobody holds it, and then only its key changes.
    pub try_lock_task_lem :
        (lock_key owner_token : Text) (s : Server)
        → try_lock_task redis limits lock_key owner_token s ≡ (
            if is_some (get s lock_key) then (none, s) else (
              some owner_token,
              set_ex lock_key (raw owner_token) limits.task_lock_ttl_seconds s,
            ))
    unfolding try_lock_task
    try_lock_task_lem lock_key owner_token s =
        ground (arith, set_nx_ex_lem lock_key (raw owner_token) limits.task_lock_ttl_seconds s)
