-- ===== src/Concurrency/Keys.antt =====
-- The keys of apps/app/utils/task_concurrency.py, as the texts that its f-strings build.
use remote_connect_backend.Base.{
  ℕ, zero, suc, ◌+◌, ◌≡◌, refl, false, List, [], ◌∷◌, ◌++◌, arith, ==_self,
}
use remote_connect_backend.Base.Text.{Text, codes, str, str-injective, ◌≐◌, ≐_iff}

abbrev pub global_slot_prefix : Text
global_slot_prefix = codes "scheduler:global-slot"

-- `TASK_SLOT_MAP_PREFIX` and `TASK_LOCK_MAP_PREFIX`.
pub data MapPrefix : Type 0 where
  task_slot_map_prefix task_lock_map_prefix : MapPrefix

abbrev prefix_text : MapPrefix → Text
prefix_text task_slot_map_prefix = codes "scheduler:task-slot"
prefix_text task_lock_map_prefix = codes "scheduler:task-lock"

unfoldable pub build_task_lock_key : Text → Text → Text
build_task_lock_key task_name tracking_key =
    codes "scheduler:inflight:" ++ (task_name ++ (codes ":" ++ tracking_key))

unfoldable pub slot_key : ℕ → Text
slot_key index = global_slot_prefix ++ (codes ":" ++ str index)

unfoldable pub map_key : MapPrefix → Text → Text
map_key prefix task_id = prefix_text prefix ++ (codes ":" ++ task_id)

-- `[slot_key(index) for index in range(first, first + n)]`
abbrev pub slot_keys_from : ℕ → ℕ → List Text
slot_keys_from first zero = []
slot_keys_from first (suc n) = slot_key first ∷ slot_keys_from (first + 1) n

abbrev pub slot_keys : ℕ → List Text
slot_keys max_running_tasks = slot_keys_from 0 max_running_tasks

≐-append : (xs a b : Text) → ((xs ++ a) ≐ (xs ++ b)) ≡ (a ≐ b)
≐-append [] a b = refl
≐-append (x ∷ xs) a b = ground (arith, ≐-append xs a b, ==_self x)

pub slot_key-injective : (i j : ℕ) → slot_key i ≡ slot_key j → i ≡ j
unfolding slot_key
slot_key-injective i j e = str-injective i j (
    (≐_iff _ _).0
      (rw (← ≐-append (codes "scheduler:global-slot:") (str i) (str j)) ((≐_iff _ _).1 e)))

-- Keys of different kinds never meet, whatever task and index they are for.
module _ (name key id other : Text) (i : ℕ) where
  pub slot_map-ne-lock_map :
      (map_key task_slot_map_prefix id ≐ map_key task_lock_map_prefix other) ≡ false
  unfolding map_key
  slot_map-ne-lock_map = refl

  pub slot_map-ne-slot : (map_key task_slot_map_prefix id ≐ slot_key i) ≡ false
  unfolding map_key slot_key
  slot_map-ne-slot = refl

  pub slot_map-ne-lock : (map_key task_slot_map_prefix id ≐ build_task_lock_key name key) ≡ false
  unfolding map_key build_task_lock_key
  slot_map-ne-lock = refl

  pub lock_map-ne-slot : (map_key task_lock_map_prefix id ≐ slot_key i) ≡ false
  unfolding map_key slot_key
  lock_map-ne-slot = refl

  pub lock_map-ne-lock : (map_key task_lock_map_prefix id ≐ build_task_lock_key name key) ≡ false
  unfolding map_key build_task_lock_key
  lock_map-ne-lock = refl

  pub slot-ne-lock : (slot_key i ≐ build_task_lock_key name key) ≡ false
  unfolding slot_key build_task_lock_key
  slot-ne-lock = refl

  pub lock_map-ne-slot_map :
      (map_key task_lock_map_prefix other ≐ map_key task_slot_map_prefix id) ≡ false
  unfolding map_key
  lock_map-ne-slot_map = refl

  pub slot-ne-slot_map : (slot_key i ≐ map_key task_slot_map_prefix id) ≡ false
  unfolding map_key slot_key
  slot-ne-slot_map = refl

  pub slot-ne-lock_map : (slot_key i ≐ map_key task_lock_map_prefix id) ≡ false
  unfolding map_key slot_key
  slot-ne-lock_map = refl

  pub lock-ne-slot_map : (build_task_lock_key name key ≐ map_key task_slot_map_prefix id) ≡ false
  unfolding map_key build_task_lock_key
  lock-ne-slot_map = refl

  pub lock-ne-lock_map : (build_task_lock_key name key ≐ map_key task_lock_map_prefix id) ≡ false
  unfolding map_key build_task_lock_key
  lock-ne-lock_map = refl

  pub lock-ne-slot : (build_task_lock_key name key ≐ slot_key i) ≡ false
  unfolding slot_key build_task_lock_key
  lock-ne-slot = refl

-- Every key of the scheduler starts with this text.
abbrev pub scheduler_prefix : Text
scheduler_prefix = codes "scheduler:"

-- A key that does not start so is none of the scheduler's.
module _ (other : Text) (apart : (t : Text) → (scheduler_prefix ++ t ≐ other) ≡ false) where
  pub map_key-apart : (prefix : MapPrefix) (id : Text) → (map_key prefix id ≐ other) ≡ false
  unfolding map_key
  map_key-apart task_slot_map_prefix id = apart (codes "task-slot:" ++ id)
  map_key-apart task_lock_map_prefix id = apart (codes "task-lock:" ++ id)

  pub slot_key-apart : (i : ℕ) → (slot_key i ≐ other) ≡ false
  unfolding slot_key
  slot_key-apart i = apart (codes "global-slot:" ++ str i)

  pub lock_key-apart : (name key : Text) → (build_task_lock_key name key ≐ other) ≡ false
  unfolding build_task_lock_key
  lock_key-apart name key = apart (codes "inflight:" ++ (name ++ (codes ":" ++ key)))
