-- ===== src/Concurrency/Scheduler.antt =====
-- `TaskScheduler` of apps/app/utils/task_concurrency.py from `_acquire_lock_and_slot_or_skip` to
-- `_try_enqueue`, `RedisTaskMetadataStore` of apps/app/utils/decorators/task_metadata.py, which
-- keeps a task's last enqueue time, and `after_return` of
-- apps/app/utils/decorators/task_decorator.py, which frees what the task held.
-- The reply of Celery's `apply_async` is an argument: `raised e`, `ok false` for `None`, or
-- `ok true`. So are the random tokens, the task id and the time. The override of `apply_async` in
-- that file also writes the time, under the key that `_try_enqueue` writes right after it for the
-- tasks of the repository, and returns no `None`: the one write here stands for both.
pub mod Held
pub mod Acquire
pub mod Enqueue
pub mod Return
pub mod Due
use remote_connect_backend.Base.{
  ℕ, zero, suc, Bool, true, false, Option, none, some, ◌∷◌, if◌then◌else◌,
}
use remote_connect_backend.Base.Text.{Text}
use remote_connect_backend.Base.Action.{Result, ok, raised, ◌>>=◌, ◌>>◌, modify}
use remote_connect_backend.Redis.{
  Redis, Value, raw, last_enqueued, redis_get, redis_set, redis_delete_if_value_matches,
}
use remote_connect_backend.Concurrency.Keys.{build_task_lock_key}
use remote_connect_backend.Concurrency.Resources.{
  Limits, reserve_task_slot, try_lock_task, unlock_task, bind_task_id_to_slot, map_task_to_lock,
  release_execution_slot, unlock_task_execution,
}

-- `RedisTaskMetadataStore`.
pub record MetadataStore : Type 0 where
  pub metadata_key : Text
  pub ttl_seconds : Option ℕ

-- The tuple of `_acquire_lock_and_slot_or_skip`.
pub record Claimed : Type 0 where
  pub lock_key : Text
  pub owner_token : Text
  pub slot_key : Text
  pub slot_token : Text

-- The random values of one call: `uuid.uuid4().hex`, three times. A hex text is never empty.
pub record Fresh : Type 0 where
  pub owner_token : Text
  pub slot_token : Text
  pub task_id_head : ℕ
  pub task_id_tail : Text

-- `if self.ttl_seconds and self.ttl_seconds > 0`: the expiry, or none.
abbrev pub positive : Option ℕ → Option ℕ
positive (some (suc ttl)) = some (suc ttl)
positive _ = none

module _ (redis : Redis) where
  open redis use {Server}

  -- A text that is no JSON document counts as no state, as does a document without the key.
  unfoldable pub read : MetadataStore → Server → Option ℕ
  unfolding redis_get
  read store s = elim (redis_get redis store.metadata_key s) [
    | some (last_enqueued t) ↦ some t
    | _ ↦ none
  ]

  unfoldable pub write : MetadataStore → ℕ → Server → Server
  write store t s =
      redis_set redis store.metadata_key (last_enqueued t) (positive store.ttl_seconds) s

module _ (redis : Redis) (limits : Limits) where
  open redis use {Server}

  pub acquire_lock_and_slot_or_skip : Text → Text → Fresh → Server → Option Claimed × Server
  acquire_lock_and_slot_or_skip key task_name fresh s =
      let lock_key = build_task_lock_key task_name key in
      let (locked, s1) = try_lock_task redis limits lock_key fresh.owner_token s in
      elim locked [
        | none ↦ (none, s1)
        | some owner_token ↦
            let (reserved, s2) = reserve_task_slot redis limits fresh.slot_token s1 in
            elim reserved [
              | none ↦ (none, unlock_task redis limits lock_key owner_token s2)
              | some (slot_key, slot_token) ↦ (
                some (record {
                  lock_key = lock_key;
                  owner_token = owner_token;
                  slot_key = slot_key;
                  slot_token = slot_token;
                }),
                s2,
              )
            ]
      ]

  pub release_claimed_resources : Claimed → Server → Server
  release_claimed_resources c s =
      unlock_task redis limits c.lock_key c.owner_token
        (redis_delete_if_value_matches redis c.slot_key c.slot_token s).1

  -- The three calls that `_try_enqueue` makes where the dispatch has failed.
  pub undo : Option Text → Claimed → Server → Result (Unit {0}) × Server
  undo task_id c = do
    release_execution_slot redis limits task_id
    unlock_task_execution redis limits task_id
    modify (release_claimed_resources c)

  pub dispatch :
      MetadataStore → Result Bool → ℕ → Option Text → Claimed → Server → Result Bool × Server
  dispatch store (raised e) now task_id c s =
      let (undone, s') = undo task_id c s in
      elim undone [ ok _ ↦ (raised e, s') | raised e' ↦ (raised e', s') ]
  dispatch store (ok false) now task_id c s =
      let (undone, s') = undo task_id c s in
      elim undone [ ok _ ↦ (ok false, s') | raised e' ↦ (raised e', s') ]
  dispatch store (ok true) now task_id c s = (ok true, write redis store now s)

  pub try_enqueue : Text → MetadataStore → Fresh → Result Bool → ℕ → Server → Result Bool × Server
  try_enqueue task_name store fresh reply now s =
      let (claimed, s1) = acquire_lock_and_slot_or_skip store.metadata_key task_name fresh s in
      elim claimed [
        | none ↦ (ok false, s1)
        | some c ↦
            let task_id = some (fresh.task_id_head ∷ fresh.task_id_tail) in
            let s2 = bind_task_id_to_slot redis limits task_id c.slot_key c.slot_token s1 in
            let s3 = map_task_to_lock redis limits task_id c.lock_key c.owner_token s2 in
            dispatch store reply now task_id c s3
      ]

  -- The overriding part of `LifecycleAwareCeleryTask.after_return`.
  pub after_return : Option Text → Server → Result (Unit {0}) × Server
  after_return task_id = do
    release_execution_slot redis limits task_id
    unlock_task_execution redis limits task_id
