-- ===== src/Concurrency/Resources/Claiming.antt =====
-- What claiming a slot does (`reserve_task_slot`, and its Lua script).
use remote_connect_backend.Base.{
  ℕ, zero, suc, ◌+◌, ◌<◌, ◌≤◌, ◌≡◌, refl, ◌↔◌, true, false, Option, none, some, is_some, List, [],
  ◌∷◌, arith, if◌then◌else◌, Bool-cases, inl, inr, Option-cases, length, ap,
}
use remote_connect_backend.Base.Text.{Text, ◌≐◌, ≐_self, ≐_ne, eq_of-≐, contains}
use remote_connect_backend.Redis.{Redis, Value, raw}
use remote_connect_backend.Concurrency.Keys.{
  slot_key, slot_keys, slot_keys_from, slot_key-injective,
}
use remote_connect_backend.Concurrency.Resources.{Limits, claim_first_free_slot, reserve_task_slot}

abbrev Nodup : List Text → Type 0
Nodup [] = Unit
Nodup (k ∷ ks) = (contains k ks ≡ false) × Nodup ks

not_in-slot_keys_from :
    (i first n : ℕ) → i < first → contains (slot_key i) (slot_keys_from first n) ≡ false
not_in-slot_keys_from i first zero h = refl
not_in-slot_keys_from i first (suc n) h = ground (
  arith,
  ≐_ne (slot_key i) (slot_key first) (λ e. absurd (omega (arith, slot_key-injective i first e))),
  not_in-slot_keys_from i (first + 1) n,
)

Nodup-slot_keys_from : (first n : ℕ) → Nodup (slot_keys_from first n)
Nodup-slot_keys_from first zero = tt
Nodup-slot_keys_from first (suc n) =
    (not_in-slot_keys_from first (first + 1) n (omega arith), Nodup-slot_keys_from (first + 1) n)

length-slot_keys_from : (first n : ℕ) → length (slot_keys_from first n) ≡ n
length-slot_keys_from first zero = refl
length-slot_keys_from first (suc n) = omega (arith, length-slot_keys_from (first + 1) n)

-- What `reserve_task_slot` replies when the script has claimed a key.
abbrev pub reservation : Text → Option Text → Option (Text × Text)
reservation owner_token none = none
reservation owner_token (some key) = some (key, owner_token)

module _ (redis : Redis) where
  open redis use {Server, get}

  -- The first key of the list that is not set.
  abbrev pub first_free : Server → List Text → Option Text
  first_free s [] = none
  first_free s (k ∷ ks) = if is_some (get s k) then first_free s ks else some k

  -- How many of the keys are set.
  abbrev pub occupied : Server → List Text → ℕ
  occupied s [] = 0
  occupied s (k ∷ ks) = (if is_some (get s k) then 1 else 0) + occupied s ks

  -- What a claim of `key` leaves under the key `j`.
  abbrev pub with_claim : Option Text → Text → Server → Text → Option Value
  with_claim none owner_token s j = get s j
  with_claim (some key) owner_token s j = if key ≐ j then some (raw owner_token) else get s j

  -- A write under a key outside the list changes no count.
  occupied-outside :
      (k : Text) (v : Value) (s s' : Server) (keys : List Text)
      → ((j : Text) → get s' j ≡ (if k ≐ j then some v else get s j))
      → contains k keys ≡ false
      → occupied s' keys ≡ occupied s keys
  occupied-outside k v s s' [] same out = refl
  occupied-outside k v s s' (x ∷ keys) same out =
      ground (arith, same x, occupied-outside k v s s' keys same)

  claimed_key_in :
      (s : Server) (keys : List Text) (k : Text)
      → first_free s keys ≡ some k
      → contains k keys ≡ true
  claimed_key_in s [] k h = cc
  claimed_key_in s (x ∷ keys) k h = ground (arith, ≐_self k, claimed_key_in s keys k)

  -- A claim that went past `k` leaves `k` as it was.
  claim-passes :
      (owner_token : Text) (s : Server) (k : Text) (keys : List Text)
      → contains k keys ≡ false
      → with_claim (first_free s keys) owner_token s k ≡ get s k
  claim-passes owner_token s k keys out = elim (Option-cases (first_free s keys)) [
    | inl full ↦ rw full
    | inr (x, claimed) ↦
        rw claimed
          (ground (arith, claimed_key_in s keys x claimed, eq_of-≐ x k, ap (λ y. contains y keys)))
  ]

  occupied-claim :
      (owner_token : Text) (s s' : Server) (keys : List Text)
      → Nodup keys
      → ((j : Text) → get s' j ≡ with_claim (first_free s keys) owner_token s j)
      → occupied s' keys ≡ occupied s keys + (if is_some (first_free s keys) then 1 else 0)
  occupied-claim owner_token s s' [] distinct after = refl
  occupied-claim owner_token s s' (k ∷ keys) distinct after =
      elim (Bool-cases (is_some (get s k))) [
        | inl set_already ↦ rw (after k) (
            rw set_already (
              rw (claim-passes owner_token s k keys distinct.0) (
                rw set_already (
                  omega (
                    arith,
                    occupied-claim owner_token s s' keys distinct.1
                        (λ j. rw set_already at (after j)),
                  )))))
        | inr free ↦
            let after' : (j : Text)
                → get s' j ≡ (if k ≐ j then some (raw owner_token) else get s j) =
              λ j. rw free at (after j) in
            ground (
              arith,
              free,
              after' k,
              ≐_self k,
              occupied-outside k (raw owner_token) s s' keys after' distinct.0,
            )
      ]

  occupied-le-length : (s : Server) (keys : List Text) → occupied s keys ≤ length keys
  occupied-le-length s [] = omega arith
  occupied-le-length s (k ∷ keys) = ground (arith, occupied-le-length s keys)

  first_free-none :
      (s : Server) (keys : List Text) → (first_free s keys ≡ none) ↔ (occupied s keys ≡ length keys)
  first_free-none s [] = (λ _. refl, λ _. refl)
  first_free-none s (k ∷ keys) = ground (arith, first_free-none s keys, occupied-le-length s keys)

module _ (redis : Redis) (limits : Limits) (ttl_pos : 0 < limits.task_lock_ttl_seconds) where
  open redis use {Server, get, set_ex, get-set_ex, set_nx_ex_lem}

  claim_step :
      (k : Text) (keys : List Text) (owner_token : Text) (s : Server)
      → claim_first_free_slot redis limits (k ∷ keys) owner_token s ≡ (
          if is_some (get s k)
          then claim_first_free_slot redis limits keys owner_token s
          else (some k, set_ex k (raw owner_token) limits.task_lock_ttl_seconds s))
  unfolding claim_first_free_slot
  claim_step k keys owner_token s =
      ground (arith, set_nx_ex_lem k (raw owner_token) limits.task_lock_ttl_seconds s)

  claim-first_free :
      (keys : List Text) (owner_token : Text) (s : Server)
      → (claim_first_free_slot redis limits keys owner_token s).0 ≡ first_free redis s keys
  unfolding claim_first_free_slot
  claim-first_free [] owner_token s = refl
  claim-first_free (k ∷ keys) owner_token s =
      rw claim_step (ground (arith, claim-first_free keys owner_token s))

  get-claim :
      (keys : List Text) (owner_token : Text) (s : Server) (j : Text)
      → get (claim_first_free_slot redis limits keys owner_token s).1 j
        ≡ with_claim redis (first_free redis s keys) owner_token s j
  unfolding claim_first_free_slot
  get-claim [] owner_token s j = refl
  get-claim (k ∷ keys) owner_token s j = rw claim_step (
      ground (
        arith,
        get-claim keys owner_token s j,
        get-set_ex k j (raw owner_token) limits.task_lock_ttl_seconds s ttl_pos,
      ))

  -- `reserve_task_slot` claims the first of the slots that is free, in the order of their indices:
  -- its reply names that slot and the owner token, and is `none` where every slot is taken. The
  -- slot then holds the token, and no other key of the server has changed.
  pub reserve_task_slot_lem :
      (owner_token : Text) (s : Server)
      → let (reserved, s') = reserve_task_slot redis limits owner_token s in
        let free = first_free redis s (slot_keys limits.max_running_tasks) in
        (reserved ≡ reservation owner_token free)
        × ((j : Text) → get s' j ≡ with_claim redis free owner_token s j)
  unfolding reserve_task_slot
  reserve_task_slot_lem owner_token s =
      let keys = slot_keys limits.max_running_tasks in
      (
        ground (arith, claim-first_free keys owner_token s),
        λ j. ground (arith, get-claim keys owner_token s j),
      )

  -- A reservation fails exactly where all slots are taken, and a successful one raises the number
  -- of taken slots by one; so that number never passes `max_running_tasks`.
  pub reserve_task_slot-occupied :
      (owner_token : Text) (s : Server)
      → let (reserved, s') = reserve_task_slot redis limits owner_token s in
        let taken = λ (t : Server). occupied redis t (slot_keys limits.max_running_tasks) in
        ((reserved ≡ none) ↔ (taken s ≡ limits.max_running_tasks))
        × (taken s' ≡ taken s + (if is_some reserved then 1 else 0))
        × (taken s' ≤ limits.max_running_tasks)
  reserve_task_slot-occupied owner_token s =
      let keys = slot_keys limits.max_running_tasks in
      let (reserved, s') = reserve_task_slot redis limits owner_token s in
      let (replied, after) = reserve_task_slot_lem owner_token s in
      let size = length-slot_keys_from 0 limits.max_running_tasks in
      let counted =
        occupied-claim redis owner_token s s' keys (Nodup-slot_keys_from 0 limits.max_running_tasks)
          after in
      let full = first_free-none redis s keys in
      (
        ground (arith, replied, full, size),
        ground (arith, replied, counted),
        omega (arith, size, occupied-le-length redis s' keys),
      )
