-- ===== src/Concurrency/Scheduler/Held.antt =====
-- What a dispatched task holds, and that `after_return`, or the undoing of a failed dispatch, frees
-- just that.
use remote_connect_backend.Base.{ℕ, ◌≡◌, ap, ◌∙◌, Bool, true, none, some, ◌∷◌, arith, if◌then◌else◌}
use remote_connect_backend.Base.Text.{Text, ◌≐◌, ≐_self}
use remote_connect_backend.Base.Action.{ok, ◌>>◌, modify, >>-ok}
use remote_connect_backend.Redis.{Redis, raw, binding}
use remote_connect_backend.Concurrency.Keys.{
  build_task_lock_key, map_key, task_slot_map_prefix, task_lock_map_prefix, slot_key,
  slot_map-ne-lock_map, slot-ne-lock_map, slot_map-ne-lock, slot-ne-lock,
}
use remote_connect_backend.Concurrency.Resources.{
  Limits, release_execution_slot, unlock_task_execution,
}
use remote_connect_backend.Concurrency.Resources.Binding.{
  release_by_id_lem, release_execution_slot_lem, unlock_task_execution_lem, get-unlock_task,
  get-delete_if_value_matches,
}
use remote_connect_backend.Concurrency.Scheduler.{
  Claimed, after_return, release_claimed_resources, undo,
}

-- The keys of one dispatched task: its two mappings, its slot and its lock.
abbrev pub own_keys : Text → Text → ℕ → Text → Bool
own_keys id lock_key i j =
    if map_key task_slot_map_prefix id ≐ j
    then true
    else if map_key task_lock_map_prefix id ≐ j
    then true
    else if slot_key i ≐ j
    then true
    else lock_key ≐ j

-- What `_acquire_lock_and_slot_or_skip` returns when it has claimed the slot `i`.
abbrev pub claim_of : Text → Text → Text → Text → ℕ → Claimed
claim_of name key owner_token slot_token i = record {
  lock_key = build_task_lock_key name key;
  owner_token = owner_token;
  slot_key = slot_key i;
  slot_token = slot_token;
}

module _ (redis : Redis) (limits : Limits) where
  open redis use {Server, get}

  -- The task `id` holds the slot `i` and its lock, and both are bound to its id.
  pub record IsHeld (id name key owner_token slot_token : Text) (i : ℕ) (s : Server) : Type 0 where
    pub slot_bound :
        get s (map_key task_slot_map_prefix id) ≡ some (binding (slot_key i) slot_token)
    pub lock_bound :
        get s (map_key task_lock_map_prefix id)
        ≡ some (binding (build_task_lock_key name key) owner_token)
    pub slot_held : get s (slot_key i) ≡ some (raw slot_token)
    pub lock_held : get s (build_task_lock_key name key) ≡ some (raw owner_token)

  module _ (c : ℕ) (id name key owner_token slot_token : Text) (i : ℕ) (s : Server)
      (held : IsHeld (c ∷ id) name key owner_token slot_token i s) where
    after_slot :
        (j : Text)
        → get (release_execution_slot redis limits (some (c ∷ id)) s).1 j ≡ (
            if map_key task_slot_map_prefix (c ∷ id) ≐ j
            then none
            else if slot_key i ≐ j
            then none
            else get s j)
    after_slot j = rw (release_execution_slot_lem redis limits) (
        rw
          ((release_by_id_lem redis limits c id task_slot_map_prefix (slot_key i) slot_token s
              held.slot_bound).1
            j)
          (ground (arith, held.slot_bound, held.slot_held, ≐_self slot_token)))

    slot_freed : (release_execution_slot redis limits (some (c ∷ id)) s).0 ≡ ok tt
    slot_freed = rw (release_execution_slot_lem redis limits) (
        (release_by_id_lem redis limits c id task_slot_map_prefix (slot_key i) slot_token s
          held.slot_bound).0)

    abbrev without_slot : Server
    without_slot = (release_execution_slot redis limits (some (c ∷ id)) s).1

    still_lock_bound :
        get without_slot (map_key task_lock_map_prefix (c ∷ id))
        ≡ some (binding (build_task_lock_key name key) owner_token)
    still_lock_bound = rw (after_slot (map_key task_lock_map_prefix (c ∷ id))) (
        ground (
          arith,
          slot_map-ne-lock_map name key (c ∷ id) (c ∷ id) i,
          slot-ne-lock_map name key (c ∷ id) (c ∷ id) i,
          held.lock_bound,
        ))

    still_lock_held : get without_slot (build_task_lock_key name key) ≡ some (raw owner_token)
    still_lock_held = rw (after_slot (build_task_lock_key name key)) (
        ground (
          arith,
          slot_map-ne-lock name key (c ∷ id) (c ∷ id) i,
          slot-ne-lock name key (c ∷ id) (c ∷ id) i,
          held.lock_held,
        ))

    after_both :
        (j : Text)
        → get (unlock_task_execution redis limits (some (c ∷ id)) without_slot).1 j
          ≡ (if own_keys (c ∷ id) (build_task_lock_key name key) i j then none else get s j)
    after_both j = rw (unlock_task_execution_lem redis limits) (
        rw
          ((release_by_id_lem redis limits c id task_lock_map_prefix (build_task_lock_key name key)
              owner_token without_slot still_lock_bound).1
            j)
          (ground (arith, still_lock_bound, still_lock_held, ≐_self owner_token, after_slot j)))

    both_freed : (unlock_task_execution redis limits (some (c ∷ id)) without_slot).0 ≡ ok tt
    both_freed = rw (unlock_task_execution_lem redis limits) (
        (release_by_id_lem redis limits c id task_lock_map_prefix (build_task_lock_key name key)
          owner_token without_slot still_lock_bound).0)

    pub after_return_held :
        ((after_return redis limits (some (c ∷ id)) s).0 ≡ ok tt)
        × ((j : Text)
            → get (after_return redis limits (some (c ∷ id)) s).1 j
              ≡ (if own_keys (c ∷ id) (build_task_lock_key name key) i j then none else get s j))
    unfolding after_return
    after_return_held =
        let step =
          >>-ok (release_execution_slot redis limits (some (c ∷ id)))
            (unlock_task_execution redis limits (some (c ∷ id))) s slot_freed in
        (ap (λ p. p.0) step ∙ both_freed, λ j. ap (λ p. get p.1 j) step ∙ after_both j)

    abbrev without_both : Server
    without_both = (unlock_task_execution redis limits (some (c ∷ id)) without_slot).1

    get-release_claimed :
        (j : Text)
        → get
            (release_claimed_resources redis limits
              (claim_of name key owner_token slot_token i)
              without_both)
            j
          ≡ (if own_keys (c ∷ id) (build_task_lock_key name key) i j then none else get s j)
    unfolding release_claimed_resources
    get-release_claimed j = rw (get-unlock_task redis limits) (
        ground (
          arith,
          after_both j,
          after_both (slot_key i),
          after_both (build_task_lock_key name key),
          ≐_self (slot_key i),
          ≐_self (build_task_lock_key name key),
          get-delete_if_value_matches redis (slot_key i) slot_token without_both j,
          get-delete_if_value_matches redis (slot_key i) slot_token without_both
              (build_task_lock_key name key),
        ))

    pub undo_held :
        ((undo redis limits (some (c ∷ id)) (claim_of name key owner_token slot_token i) s).0
          ≡ ok tt)
        × ((j : Text)
            → get
                (undo redis limits (some (c ∷ id)) (claim_of name key owner_token slot_token i) s).1
                j
              ≡ (if own_keys (c ∷ id) (build_task_lock_key name key) i j then none else get s j))
    unfolding undo
    undo_held =
        let last =
          modify
            (release_claimed_resources redis limits (claim_of name key owner_token slot_token i)) in
        let unlock = unlock_task_execution redis limits (some (c ∷ id)) in
        let step =
          >>-ok (release_execution_slot redis limits (some (c ∷ id))) (unlock >> last) s slot_freed
          ∙ >>-ok unlock last without_slot both_freed in
        (ap (λ p. p.0) step, λ j. ap (λ p. get p.1 j) step ∙ get-release_claimed j)
