-- ===== src/Monitor/Access.antt =====
-- `_record_violation` of apps/app/modules/monitor/services/monitor_access_guard.py for one address,
-- where Redis answers. Times and durations are whole seconds, and the sorted set is as in
-- RateLimiting.Window.
pub mod Blocking
use remote_connect_backend.Base.{
  ℕ, ◌+◌, ◌*◌, Bool, true, false, Option, none, some, List, [], ◌∷◌, length, if◌then◌else◌, leb,
}
use remote_connect_backend.Base.Action.{Result, ok, raised, other}
use remote_connect_backend.RateLimiting.Window.{Bucket, found, drop_old}

pub record AccessSettings : Type 0 where
  pub window_seconds : ℕ
  pub max_unauthenticated : ℕ
  pub block_seconds : ℕ

-- What is under the two keys of an address: how long a block lasts and when it ends, and the attempts.
pub record Address : Type 0 where
  pub block : Option (ℕ × ℕ)
  pub counter : Bucket

-- `GET block_key` at a time.
abbrev pub existing_duration : ℕ → Option (ℕ × ℕ) → Option ℕ
existing_duration now none = none
existing_duration now (some (duration, ends)) = if leb ends now then none else some duration

abbrev pub count_violation : AccessSettings → ℕ → List ℕ → Address → (Bool × Bool) × Address
count_violation settings now ts a =
    if leb settings.max_unauthenticated (length ts)
    then (
      (true, false),
      record {
        block = some (settings.block_seconds, now + settings.block_seconds);
        counter = record { hits = []; expires = none };
      },
    )
    else (
      (false, false),
      record {
        block = a.block;
        counter = record { hits = now ∷ ts; expires = some (now + settings.window_seconds) };
      },
    )

-- Redis refuses an expiry that is too far off, which raises before anything is written.
-- `takes_expiry now seconds` tells whether it takes one, for the doubled block; the durations of the
-- settings are taken.
module _ (takes_expiry : ℕ → ℕ → Bool) where
  abbrev pub escalation : ℕ → Address → ℕ → Result (Bool × Bool) × Address
  escalation now a duration =
      if takes_expiry now duration
      then (
        ok (true, true),
        record { block = some (duration, now + duration); counter = a.counter },
      )
      else (raised other, a)

  abbrev pub violation : AccessSettings → ℕ → Address → Option ℕ → Result (Bool × Bool) × Address
  violation settings now a (some duration) = escalation now a (duration * 2)
  violation settings now a none =
      let ts = drop_old now settings.window_seconds (found now a.counter) in
      let (reply, a') = count_violation settings now ts a in (ok reply, a')

  -- Whether the attempt is blocked, and whether it has made a block longer.
  unfoldable pub record_violation : AccessSettings → ℕ → Address → Result (Bool × Bool) × Address
  record_violation settings now a = violation settings now a (existing_duration now a.block)

  -- The replies to attempts at some times, and what is stored after them.
  unfoldable pub record_violations :
      AccessSettings → List ℕ → Address → List (Result (Bool × Bool)) × Address
  record_violations settings [] a = ([], a)
  record_violations settings (now ∷ times) a =
      let (reply, a1) = record_violation settings now a in
      let (replies, a2) = record_violations settings times a1 in (reply ∷ replies, a2)
