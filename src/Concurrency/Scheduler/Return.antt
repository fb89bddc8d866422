-- ===== src/Concurrency/Scheduler/Return.antt =====
-- From the dispatch of a task to its return: what `_try_enqueue` took, `after_return` gives back.
use remote_connect_backend.Base.{
  ℕ, zero, suc, ◌<◌, ◌≡◌, ap, ◌∙◌, false, true, Option, none, some, ◌∷◌, ◌++◌, arith, if◌then◌else◌,
  inl, inr,
}
use remote_connect_backend.Base.Text.{Text, ◌≐◌, ≐_comm, ≐_self, eq_of-≐}
use remote_connect_backend.Base.Action.{Result, ok}
use remote_connect_backend.Redis.{Redis, Value, last_enqueued, redis_set}
use remote_connect_backend.Concurrency.Keys.{
  build_task_lock_key, map_key, task_slot_map_prefix, task_lock_map_prefix, scheduler_prefix,
  map_key-apart, slot_key-apart, lock_key-apart,
}
use remote_connect_backend.Concurrency.Resources.{Limits}
use remote_connect_backend.Concurrency.Scheduler.{
  Fresh, MetadataStore, try_enqueue, after_return, read, write, positive,
}
use remote_connect_backend.Concurrency.Scheduler.Held.{IsHeld, own_keys, after_return_held}
use remote_connect_backend.Concurrency.Scheduler.Acquire.{Acquired, acquire_cases}
use remote_connect_backend.Concurrency.Scheduler.Enqueue.{
  all_bound, all_bound-IsHeld, try_enqueue_step, dispatch_done, freed, skipped_step,
}

module _ (redis : Redis) where
  open redis use {Server, get, get-set, get-set_ex}

  get-set_positive :
      (key : Text) (v : Value) (ttl : Option ℕ) (s : Server) (j : Text)
      → get (redis_set redis key v (positive ttl) s) j ≡ (if key ≐ j then some v else get s j)
  unfolding redis_set
  get-set_positive key v none s j = get-set key j v s
  get-set_positive key v (some zero) s j = get-set key j v s
  get-set_positive key v (some (suc ttl)) s j = get-set_ex key j v (suc ttl) s (omega arith)

  pub get-write :
      (store : MetadataStore) (t : ℕ) (s : Server) (j : Text)
      → get (write redis store t s) j
        ≡ (if store.metadata_key ≐ j then some (last_enqueued t) else get s j)
  unfolding write
  get-write store t s j =
      get-set_positive store.metadata_key (last_enqueued t) store.ttl_seconds s j

  -- A time that was written is read back.
  pub read-write :
      (store : MetadataStore) (t : ℕ) (s : Server)
      → read redis store (write redis store t s) ≡ some t
  unfolding read
  read-write store t s =
      ground (arith, get-write store t s store.metadata_key, ≐_self store.metadata_key)

module _ (redis : Redis) (limits : Limits) (ttl_pos : 0 < limits.task_lock_ttl_seconds) where
  open redis use {Server, get}

  module _ (name : Text) (store : MetadataStore) (fresh : Fresh) (s : Server) (now : ℕ)
      (apart : (t : Text) → (scheduler_prefix ++ t ≐ store.metadata_key) ≡ false) where
    abbrev task_id : Text
    task_id = fresh.task_id_head ∷ fresh.task_id_tail

    abbrev lock_key : Text
    lock_key = build_task_lock_key name store.metadata_key

    abbrev key : Text
    key = store.metadata_key

    module _ (i : ℕ) (got : Acquired redis limits ttl_pos name store.metadata_key fresh s i) where
      abbrev bound : Server
      bound = all_bound redis limits ttl_pos name store fresh s i got

      abbrev written : Server
      written = write redis store now bound

      kept : (j : Text) → (j ≐ key) ≡ false → get written j ≡ get bound j
      kept j other = get-write redis store now bound j ∙ ground (arith, ≐_comm j key, other)

      written-IsHeld :
          IsHeld redis limits task_id name key fresh.owner_token fresh.slot_token i written
      written-IsHeld =
          let held = all_bound-IsHeld redis limits ttl_pos name store fresh s i got in
          record {
            slot_bound =
                kept _ (map_key-apart key apart task_slot_map_prefix task_id) ∙ held.slot_bound;
            lock_bound =
                kept _ (map_key-apart key apart task_lock_map_prefix task_id) ∙ held.lock_bound;
            slot_held = kept _ (slot_key-apart key apart i) ∙ held.slot_held;
            lock_held = kept _ (lock_key-apart key apart name key) ∙ held.lock_held;
          }

      abbrev returned : Result (Unit {0}) × Server
      returned = after_return redis limits (some task_id) written

      returned_lem :
          (returned.0 ≡ ok tt)
          × ((j : Text)
              → get returned.1 j ≡ (if own_keys task_id lock_key i j then none else get written j))
      returned_lem =
          after_return_held redis limits fresh.task_id_head fresh.task_id_tail name key
            fresh.owner_token fresh.slot_token i written written-IsHeld

      not_own : own_keys task_id lock_key i key ≡ false
      not_own = ground (
        arith,
        map_key-apart key apart task_slot_map_prefix task_id,
        map_key-apart key apart task_lock_map_prefix task_id,
        slot_key-apart key apart i,
        lock_key-apart key apart name key,
      )

      get-returned :
          get s (map_key task_slot_map_prefix task_id) ≡ none
          → get s (map_key task_lock_map_prefix task_id) ≡ none
          → (j : Text) → get returned.1 j ≡ (if key ≐ j then some (last_enqueued now) else get s j)
      get-returned no_slot no_lock j =
          returned_lem.1 j
          ∙ ground (
            arith,
            get-write redis store now bound j,
            freed redis limits ttl_pos name store fresh s i got no_slot no_lock j,
            not_own,
            eq_of-≐ key j,
            ap (own_keys task_id lock_key i) {x = key} {y = j},
          )

    -- A task that `_try_enqueue` has dispatched gives back, when it returns, all that the call took:
    -- `after_return` succeeds, and the only key that then differs from before the call is the
    -- task's metadata key, which holds the time of the dispatch. The task id is new, and the
    -- metadata key is outside the scheduler's key space.
    pub try_enqueue-after_return :
        get s (map_key task_slot_map_prefix task_id) ≡ none
        → get s (map_key task_lock_map_prefix task_id) ≡ none
        → (try_enqueue redis limits name store fresh (ok true) now s).0 ≡ ok true
        → let s1 = (try_enqueue redis limits name store fresh (ok true) now s).1 in
          let (r, s') = after_return redis limits (some task_id) s1 in
          (r ≡ ok tt)
          × ((j : Text) → get s' j ≡ (if key ≐ j then some (last_enqueued now) else get s j))
    try_enqueue-after_return no_slot no_lock done =
        elim (acquire_cases redis limits ttl_pos name key fresh s) [
          | inl (skipped, same, why) ↦ cc (
              ap (λ p. p.0)
                (skipped_step redis limits ttl_pos name store fresh s (ok true) now skipped))
          | inr (i, got) ↦
              rw
                (try_enqueue_step redis limits ttl_pos name store fresh s i got (ok true) now
                  ∙ dispatch_done redis limits ttl_pos name store fresh s i got now)
                ((returned_lem i got).0, get-returned i got no_slot no_lock)
        ]
