-- ===== src/Concurrency/Scheduler/Acquire.antt =====
-- `_acquire_lock_and_slot_or_skip` takes the lock and a slot, or neither.
use remote_connect_backend.Base.{
  ℕ, zero, suc, ◌+◌, ◌<◌, ◌≡◌, refl, ap, ◌∙◌, ◌⊎◌, true, Option, none, some, is_some, List, arith,
  if◌then◌else◌, Option-cases, inl, inr,
}
use remote_connect_backend.Base.Text.{Text, ◌≐◌, ≐_self, eq_of-≐}
use remote_connect_backend.Redis.{Redis, raw}
use remote_connect_backend.Concurrency.Keys.{
  build_task_lock_key, slot_key, slot_keys, slot_keys_from, lock-ne-slot,
}
use remote_connect_backend.Concurrency.Resources.{
  Limits, reserve_task_slot, try_lock_task, unlock_task,
}
use remote_connect_backend.Concurrency.Resources.Claiming.{
  first_free, with_claim, reservation, reserve_task_slot_lem,
}
use remote_connect_backend.Concurrency.Resources.Binding.{try_lock_task_lem, get-unlock_task}
use remote_connect_backend.Concurrency.Scheduler.{Claimed, Fresh, acquire_lock_and_slot_or_skip}
use remote_connect_backend.Concurrency.Scheduler.Held.{claim_of}

module _ (redis : Redis) where
  open redis use {Server, get}

  abbrev pub Unchanged : Server → Server → Type 0
  Unchanged s s' = (j : Text) → get s' j ≡ get s j

  -- The key that a claim took is a slot's, and was not set.
  first_free_slot :
      (s : Server) (first n : ℕ) (k : Text)
      → first_free redis s (slot_keys_from first n) ≡ some k
      → (i : ℕ) × (k ≡ slot_key i) × (get s k ≡ none)
  first_free_slot s first zero k h = cc
  first_free_slot s first (suc n) k h = elim (Option-cases (get s (slot_key first))) [
    | inl free ↦ let e : k ≡ slot_key first = ground arith in (first, e, ap (get s) e ∙ free)
    | inr (v, taken) ↦ first_free_slot s (first + 1) n k (ground arith)
  ]

  -- A write under a key that is no slot's changes no claim.
  first_free_same :
      (s s' : Server) (first n : ℕ)
      → ((i : ℕ) → get s' (slot_key i) ≡ get s (slot_key i))
      → first_free redis s' (slot_keys_from first n) ≡ first_free redis s (slot_keys_from first n)
  first_free_same s s' first zero same = refl
  first_free_same s s' first (suc n) same =
      ground (arith, same first, first_free_same s s' (first + 1) n same)

module _ (redis : Redis) (limits : Limits) (ttl_pos : 0 < limits.task_lock_ttl_seconds) where
  open redis use {Server, get, set_ex, get-set_ex}

  module _ (name key : Text) (fresh : Fresh) (s : Server) where
    abbrev pub lock_key : Text
    lock_key = build_task_lock_key name key

    abbrev pub slots : List Text
    slots = slot_keys limits.max_running_tasks

    abbrev pub acquired : Option Claimed × Server
    acquired = acquire_lock_and_slot_or_skip redis limits key name fresh s

    -- The two ways in which the lock and a slot are asked for.
    abbrev pub Skipped : Type 0
    Skipped =
        (acquired.0 ≡ none)
        × Unchanged redis s acquired.1
        × ((is_some (get s lock_key) ≡ true) ⊎ (first_free redis s slots ≡ none))

    abbrev pub Acquired : ℕ → Type 0
    Acquired i =
        (acquired.0 ≡ some (claim_of name key fresh.owner_token fresh.slot_token i))
        × (get s lock_key ≡ none)
        × (get s (slot_key i) ≡ none)
        × (first_free redis s slots ≡ some (slot_key i))
        × ((j : Text)
            → get acquired.1 j ≡ (
                if slot_key i ≐ j
                then some (raw fresh.slot_token)
                else if lock_key ≐ j
                then some (raw fresh.owner_token)
                else get s j))

    abbrev with_lock : Server
    with_lock = set_ex lock_key (raw fresh.owner_token) limits.task_lock_ttl_seconds s

    get-with_lock :
        (j : Text)
        → get with_lock j ≡ (if lock_key ≐ j then some (raw fresh.owner_token) else get s j)
    get-with_lock j =
        get-set_ex lock_key j (raw fresh.owner_token) limits.task_lock_ttl_seconds s ttl_pos

    same_free : first_free redis with_lock slots ≡ first_free redis s slots
    same_free =
        first_free_same redis s with_lock 0 limits.max_running_tasks
          (λ i. get-with_lock (slot_key i) ∙ rw (lock-ne-slot name key key key i) refl)

    acquire_locked : is_some (get s lock_key) ≡ true → acquired ≡ (none, s)
    unfolding acquire_lock_and_slot_or_skip
    acquire_locked locked =
        let refused : try_lock_task redis limits lock_key fresh.owner_token s ≡ (none, s) =
          try_lock_task_lem redis limits ttl_pos lock_key fresh.owner_token s ∙ rw locked refl in
        ground (arith, refused)

    skip_locked : is_some (get s lock_key) ≡ true → Skipped
    skip_locked locked =
        let e = acquire_locked locked in (ap (λ p. p.0) e, λ j. ap (λ p. get p.1 j) e, inl locked)

    lock_taken :
        get s lock_key ≡ none
        → try_lock_task redis limits lock_key fresh.owner_token s
          ≡ (some fresh.owner_token, with_lock)
    lock_taken free =
        try_lock_task_lem redis limits ttl_pos lock_key fresh.owner_token s ∙ rw free refl

    abbrev reserved : Option (Text × Text) × Server
    reserved = reserve_task_slot redis limits fresh.slot_token with_lock

    abbrev reserved_lem :
        (reserved.0 ≡ reservation fresh.slot_token (first_free redis with_lock slots))
        × ((j : Text)
            → get reserved.1 j
              ≡ with_claim redis (first_free redis with_lock slots) fresh.slot_token with_lock j)
    reserved_lem = reserve_task_slot_lem redis limits ttl_pos fresh.slot_token with_lock

    skip_full : get s lock_key ≡ none → first_free redis s slots ≡ none → Skipped
    unfolding acquire_lock_and_slot_or_skip
    skip_full free full =
        let refused : reserved.0 ≡ none = reserved_lem.0 ∙ rw same_free (rw full refl) in
        let kept : (j : Text) → get reserved.1 j ≡ get with_lock j =
          λ j. reserved_lem.1 j ∙ rw same_free (rw full refl) in
        let e : acquired ≡ (none, unlock_task redis limits lock_key fresh.owner_token reserved.1) =
          ground (arith, lock_taken free, refused) in
        (
          ap (λ p. p.0) e,
          λ j.
              ap (λ p. get p.1 j) e
              ∙ get-unlock_task redis limits lock_key fresh.owner_token reserved.1 j
              ∙ ground (
                arith,
                kept j,
                kept lock_key,
                get-with_lock j,
                get-with_lock lock_key,
                ≐_self lock_key,
                ≐_self fresh.owner_token,
                eq_of-≐ lock_key j,
                ap (get s) {x = lock_key} {y = j},
                free,
              ),
          inr full,
        )

    acquire_free :
        (i : ℕ)
        → get s lock_key ≡ none
        → get s (slot_key i) ≡ none
        → first_free redis s slots ≡ some (slot_key i)
        → Acquired i
    unfolding acquire_lock_and_slot_or_skip
    acquire_free i free slot_free first =
        let granted : reserved.0 ≡ some (slot_key i, fresh.slot_token) =
          reserved_lem.0 ∙ rw same_free (rw first refl) in
        let e : acquired
            ≡ (some (claim_of name key fresh.owner_token fresh.slot_token i), reserved.1) =
          ground (arith, lock_taken free, granted) in
        (
          ap (λ p. p.0) e,
          free,
          slot_free,
          first,
          λ j.
              ap (λ p. get p.1 j) e
              ∙ reserved_lem.1 j
              ∙ rw same_free (rw first (ground (arith, get-with_lock j))),
        )

    -- There is no third way.
    pub acquire_cases : Skipped ⊎ ((i : ℕ) × Acquired i)
    acquire_cases = elim (Option-cases (get s lock_key)) [
      | inr (v, held) ↦ inl (skip_locked (rw held refl))
      | inl free ↦ elim (Option-cases (first_free redis s slots)) [
        | inl full ↦ inl (skip_full free full)
        | inr (k, first) ↦
            let (i, e, slot_free) = first_free_slot redis s 0 limits.max_running_tasks k first in
            inr (i, acquire_free i free (rw e at slot_free) (first ∙ ap some e))
      ]
    ]
