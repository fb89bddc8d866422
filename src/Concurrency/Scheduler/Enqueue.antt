-- ===== src/Concurrency/Scheduler/Enqueue.antt =====
-- `_try_enqueue` is all or nothing: unless the task was dispatched, the server is as it was before,
-- and what a dispatched task holds is freed when it returns.
use remote_connect_backend.Base.{
  ℕ, ◌<◌, ◌≡◌, refl, ap, ◌∙◌, ◌≢◌, Bool, true, false, none, some, is_some, ◌∷◌, arith,
  if◌then◌else◌, inl, inr,
}
use remote_connect_backend.Base.Text.{Text, ◌≐◌, ≐_self, eq_of-≐}
use remote_connect_backend.Base.Action.{Result, ok, raised}
use remote_connect_backend.Redis.{Redis, raw, binding}
use remote_connect_backend.Concurrency.Keys.{
  build_task_lock_key, map_key, task_slot_map_prefix, task_lock_map_prefix, slot_key, slot_keys,
  slot_map-ne-lock, slot-ne-lock, slot_map-ne-slot, lock_map-ne-slot, lock_map-ne-lock,
  lock_map-ne-slot_map,
}
use remote_connect_backend.Concurrency.Resources.{Limits, bind_task_id_to_slot, map_task_to_lock}
use remote_connect_backend.Concurrency.Resources.Claiming.{first_free}
use remote_connect_backend.Concurrency.Resources.Binding.{
  get-bind_task_id_to_slot, get-map_task_to_lock,
}
use remote_connect_backend.Concurrency.Scheduler.{
  Claimed, Fresh, MetadataStore, acquire_lock_and_slot_or_skip, dispatch, try_enqueue, undo, write,
}
use remote_connect_backend.Concurrency.Scheduler.Held.{IsHeld, claim_of, own_keys, undo_held}
use remote_connect_backend.Concurrency.Scheduler.Acquire.{Acquired, acquire_cases}

module _ (redis : Redis) (limits : Limits) (ttl_pos : 0 < limits.task_lock_ttl_seconds) where
  open redis use {Server, get}

  module _ (name : Text) (store : MetadataStore) (fresh : Fresh) (s : Server) where
    abbrev pub lock_key : Text
    lock_key = build_task_lock_key name store.metadata_key

    abbrev pub id : Text
    id = fresh.task_id_head ∷ fresh.task_id_tail

    module _ (i : ℕ) (got : Acquired redis limits ttl_pos name store.metadata_key fresh s i) where
      abbrev pub claim : Claimed
      claim = claim_of name store.metadata_key fresh.owner_token fresh.slot_token i

      abbrev pub with_both : Server
      with_both = (acquire_lock_and_slot_or_skip redis limits store.metadata_key name fresh s).1

      abbrev pub with_slot_bound : Server
      with_slot_bound =
          bind_task_id_to_slot redis limits (some id) (slot_key i) fresh.slot_token with_both

      abbrev pub all_bound : Server
      all_bound = map_task_to_lock redis limits (some id) lock_key fresh.owner_token with_slot_bound

      get-all_bound :
          (j : Text)
          → get all_bound j ≡ (
              if map_key task_lock_map_prefix id ≐ j
              then some (binding lock_key fresh.owner_token)
              else if map_key task_slot_map_prefix id ≐ j
              then some (binding (slot_key i) fresh.slot_token)
              else if slot_key i ≐ j
              then some (raw fresh.slot_token)
              else if lock_key ≐ j
              then some (raw fresh.owner_token)
              else get s j)
      get-all_bound j = ground (
        arith,
        get-map_task_to_lock redis limits ttl_pos fresh.task_id_head fresh.task_id_tail lock_key
            fresh.owner_token with_slot_bound j,
        get-bind_task_id_to_slot redis limits ttl_pos fresh.task_id_head fresh.task_id_tail
            (slot_key i) fresh.slot_token with_both j,
        got.4 j,
      )

      pub all_bound-IsHeld :
          IsHeld redis limits id name store.metadata_key fresh.owner_token fresh.slot_token i
            all_bound
      all_bound-IsHeld = record {
        slot_bound =
            get-all_bound (map_key task_slot_map_prefix id)
            ∙ ground (
              arith,
              lock_map-ne-slot_map name store.metadata_key id id i,
              ≐_self (map_key task_slot_map_prefix id),
            );
        lock_bound =
            get-all_bound (map_key task_lock_map_prefix id)
            ∙ ground (arith, ≐_self (map_key task_lock_map_prefix id));
        slot_held =
            get-all_bound (slot_key i)
            ∙ ground (
              arith,
              lock_map-ne-slot name store.metadata_key id id i,
              slot_map-ne-slot name store.metadata_key id id i,
              ≐_self (slot_key i),
            );
        lock_held =
            get-all_bound lock_key
            ∙ ground (
              arith,
              lock_map-ne-lock name store.metadata_key id id i,
              slot_map-ne-lock name store.metadata_key id id i,
              slot-ne-lock name store.metadata_key id id i,
              ≐_self lock_key,
            );
      }

      -- The call goes on to the dispatch, in the state where all is bound.
      pub try_enqueue_step :
          (reply : Result Bool) (now : ℕ)
          → try_enqueue redis limits name store fresh reply now s
            ≡ dispatch redis limits store reply now (some id) claim all_bound
      unfolding try_enqueue
      try_enqueue_step reply now = ground (arith, got.0)

      -- Freeing the task's own keys gives the state before the call.
      pub freed :
          get s (map_key task_slot_map_prefix id) ≡ none
          → get s (map_key task_lock_map_prefix id) ≡ none
          → (j : Text) → (if own_keys id lock_key i j then none else get all_bound j) ≡ get s j
      freed no_slot no_lock j = ground (
        arith,
        get-all_bound j,
        got.1,
        got.2,
        no_slot,
        no_lock,
        eq_of-≐ (slot_key i) j,
        eq_of-≐ lock_key j,
        eq_of-≐ (map_key task_slot_map_prefix id) j,
        eq_of-≐ (map_key task_lock_map_prefix id) j,
        ap (get s) {x = slot_key i} {y = j},
        ap (get s) {x = lock_key} {y = j},
        ap (get s) {x = map_key task_slot_map_prefix id} {y = j},
        ap (get s) {x = map_key task_lock_map_prefix id} {y = j},
      )

      undone_lem :
          ((undo redis limits (some id) claim all_bound).0 ≡ ok tt)
          × ((j : Text)
              → get (undo redis limits (some id) claim all_bound).1 j
                ≡ (if own_keys id lock_key i j then none else get all_bound j))
      undone_lem =
          undo_held redis limits fresh.task_id_head fresh.task_id_tail name store.metadata_key
            fresh.owner_token fresh.slot_token i all_bound all_bound-IsHeld

      dispatch_failed :
          (reply : Result Bool) (now : ℕ)
          → reply ≢ ok true
          → let (r, s') = dispatch redis limits store reply now (some id) claim all_bound in
            (r ≡ reply)
            × ((j : Text) → get s' j ≡ (if own_keys id lock_key i j then none else get all_bound j))
      unfolding dispatch
      dispatch_failed (ok true) now failed = absurd (failed refl)
      dispatch_failed (raised e) now failed =
          let (undone, after) = undone_lem in
          (ground (arith, undone), λ j. ground (arith, undone, after j))
      dispatch_failed (ok false) now failed =
          let (undone, after) = undone_lem in
          (ground (arith, undone), λ j. ground (arith, undone, after j))

      pub dispatch_done :
          (now : ℕ)
          → dispatch redis limits store (ok true) now (some id) claim all_bound
            ≡ (ok true, write redis store now all_bound)
      unfolding dispatch
      dispatch_done now = refl

      pub acquired_outcome :
          (reply : Result Bool) (now : ℕ)
          → (try_enqueue redis limits name store fresh reply now s).0 ≡ reply
      acquired_outcome reply now = rw (try_enqueue_step reply now) (replied reply)
        where
          replied :
              (r : Result Bool)
              → (dispatch redis limits store r now (some id) claim all_bound).0 ≡ r
          replied (ok true) = ap (λ p. p.0) (dispatch_done now)
          replied (ok false) = (dispatch_failed (ok false) now (λ e. cc)).0
          replied (raised e) = (dispatch_failed (raised e) now (λ e'. cc)).0

    pub skipped_step :
        (reply : Result Bool) (now : ℕ)
        → (acquire_lock_and_slot_or_skip redis limits store.metadata_key name fresh s).0 ≡ none
        → try_enqueue redis limits name store fresh reply now s ≡ (
          ok false,
          (acquire_lock_and_slot_or_skip redis limits store.metadata_key name fresh s).1,
        )
    unfolding try_enqueue
    skipped_step reply now skipped = ground (arith, skipped)

    -- `_try_enqueue` replies False where the task's lock is held or every slot is taken, and else
    -- what the dispatch replied.
    pub try_enqueue-outcome :
        (reply : Result Bool) (now : ℕ)
        → (try_enqueue redis limits name store fresh reply now s).0 ≡ (
            if is_some (get s lock_key)
            then ok false
            else if is_some (first_free redis s (slot_keys limits.max_running_tasks))
            then reply
            else ok false)
    try_enqueue-outcome reply now =
        elim (acquire_cases redis limits ttl_pos name store.metadata_key fresh s) [
          | inl (skipped, same, why) ↦
              ap (λ p. p.0) (skipped_step reply now skipped) ∙ ground (arith, why)
          | inr (i, got) ↦ acquired_outcome i got reply now ∙ ground (arith, got.1, got.3)
        ]

    -- Unless it replies True, `_try_enqueue` leaves no trace: the lock and the slot that it claimed
    -- and the two mappings that it wrote are gone, and every key is as before the call. The task id
    -- is new, so nothing is mapped to it.
    pub try_enqueue-all_or_nothing :
        (reply : Result Bool) (now : ℕ)
        → get s (map_key task_slot_map_prefix id) ≡ none
        → get s (map_key task_lock_map_prefix id) ≡ none
        → (try_enqueue redis limits name store fresh reply now s).0 ≢ ok true
        → (j : Text) → get (try_enqueue redis limits name store fresh reply now s).1 j ≡ get s j
    try_enqueue-all_or_nothing reply now no_slot no_lock failed j =
        elim (acquire_cases redis limits ttl_pos name store.metadata_key fresh s) [
          | inl (skipped, same, why) ↦ ap (λ p. get p.1 j) (skipped_step reply now skipped) ∙ same j
          | inr (i, got) ↦
              let not_done : reply ≢ ok true = λ e. failed (acquired_outcome i got reply now ∙ e) in
              ap (λ p. get p.1 j) (try_enqueue_step i got reply now)
              ∙ (dispatch_failed i got reply now not_done).1 j
              ∙ freed i got no_slot no_lock j
        ]
