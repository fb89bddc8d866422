-- ===== src/Concurrency/Scheduler/Due.antt =====
-- `run_if_due_interval` of apps/app/utils/task_concurrency.py with `_should_run_interval` and
-- `_parse_interval_seconds`. Times and intervals are whole seconds. The checks that the arguments
-- have the attributes of a task and of a tracking source are left out.
use remote_connect_backend.Base.{
  ℕ, zero, suc, ◌+◌, ◌<◌, ◌≡◌, ◌∙◌, ap, Bool, true, false, Option, none, some, arith, leb,
  if◌then◌else◌, inl, inr,
}
use remote_connect_backend.Base.Text.{Text, ≐_self}
use remote_connect_backend.Base.Action.{Result, ok, raised, value_error}
use remote_connect_backend.Redis.{Redis, Value, last_enqueued, survives, redis_get, redis_set}
use remote_connect_backend.Concurrency.Resources.{Limits}
use remote_connect_backend.Concurrency.Scheduler.{
  MetadataStore, Fresh, positive, read, write, try_enqueue,
}
use remote_connect_backend.Concurrency.Scheduler.Acquire.{acquire_cases}
use remote_connect_backend.Concurrency.Scheduler.Enqueue.{
  all_bound, try_enqueue_step, dispatch_done, skipped_step,
}

-- The argument `interval_seconds`: what `float` reads, or what it refuses.
pub data Interval : Type 0 where
  seconds : ℕ → Interval
  unreadable : Interval

unfoldable pub parse_interval_seconds : Interval → Result ℕ
parse_interval_seconds unreadable = raised value_error
parse_interval_seconds (seconds zero) = raised value_error
parse_interval_seconds (seconds (suc n)) = ok (suc n)

abbrev pub elapsed : Option ℕ → ℕ → ℕ → Bool
elapsed none n now = true
elapsed (some last) n now = leb (last + n) now

unfoldable pub should_run_interval : Option ℕ → Interval → ℕ → Result Bool
should_run_interval last interval now = elim (parse_interval_seconds interval) [
  | raised e ↦ raised e
  | ok n ↦ ok (elapsed last n now)
]

-- `force or …`
abbrev pub is_due : Bool → Option ℕ → Interval → ℕ → Result Bool
is_due true last interval now = ok true
is_due false last interval now = should_run_interval last interval now

module _ (redis : Redis) (limits : Limits) where
  open redis use {Server, get, life, wait, get-set, get-set_ex, life-set, life-set_ex, get-wait}

  unfoldable pub enqueue_if :
      Result Bool → Text → MetadataStore → Fresh → Result Bool → ℕ → Server → Result Bool × Server
  enqueue_if (raised e) name store fresh reply now s = (raised e, s)
  enqueue_if (ok false) name store fresh reply now s = (ok false, s)
  enqueue_if (ok true) name store fresh reply now s =
      try_enqueue redis limits name store fresh reply now s

  unfoldable pub run_if_due_interval :
      Interval
      → Bool
      → Text
      → MetadataStore
      → Fresh
      → Result Bool
      → ℕ
      → Server
      → Result Bool × Server
  run_if_due_interval interval force name store fresh reply now s =
      enqueue_if (is_due force (read redis store s) interval now) name store fresh reply now s

  get-written :
      (key : Text) (v : Value) (ttl : Option ℕ) (s : Server)
      → get (redis_set redis key v (positive ttl) s) key ≡ some v
  unfolding redis_set
  get-written key v none s = ground (arith, get-set key key v s, ≐_self key)
  get-written key v (some zero) s = ground (arith, get-set key key v s, ≐_self key)
  get-written key v (some (suc t)) s = ground (arith, get-set_ex key key v (suc t) s, ≐_self key)

  life-written :
      (key : Text) (v : Value) (ttl : Option ℕ) (s : Server)
      → life (redis_set redis key v (positive ttl) s) key ≡ positive ttl
  unfolding redis_set
  life-written key v none s = ground (arith, life-set key key v s, ≐_self key)
  life-written key v (some zero) s = ground (arith, life-set key key v s, ≐_self key)
  life-written key v (some (suc t)) s = ground (arith, life-set_ex key key v (suc t) s, ≐_self key)

  get-wait-written :
      (key : Text) (v : Value) (ttl : Option ℕ) (n : ℕ) (s : Server)
      → survives n (positive ttl) ≡ true
      → get (wait n (redis_set redis key v (positive ttl) s)) key ≡ some v
  get-wait-written key v ttl n s lives =
      get-wait n (redis_set redis key v (positive ttl) s) key
      ∙ ap (λ o. if survives n o then get (redis_set redis key v (positive ttl) s) key else none)
          (life-written key v ttl s)
      ∙ ap (λ b. if b then get (redis_set redis key v (positive ttl) s) key else none) lives
      ∙ get-written key v ttl s

  -- The metadata key as long as it lives.
  read-wait-write :
      (store : MetadataStore) (now n : ℕ) (s : Server)
      → survives n (positive store.ttl_seconds) ≡ true
      → read redis store (wait n (write redis store now s)) ≡ some now
  unfolding read write redis_get
  read-wait-write store now n s lives =
      ground
        (arith, get-wait-written store.metadata_key (last_enqueued now) store.ttl_seconds n s lives)

  enqueue_if-not_due :
      (name : Text) (store : MetadataStore) (again : Fresh) (reply : Result Bool)
      (now n interval : ℕ) (later : Server)
      → read redis store later ≡ some now
      → n < interval
      → run_if_due_interval (seconds interval) false name store again reply (now + n) later
        ≡ (ok false, later)
  unfolding run_if_due_interval should_run_interval parse_interval_seconds enqueue_if
  enqueue_if-not_due name store again reply now n zero later kept short = absurd (omega arith)
  enqueue_if-not_due name store again reply now n (suc m) later kept short =
      ap
        (λ o.
          enqueue_if (should_run_interval o (seconds (suc m)) (now + n)) name store again reply
            (now + n) later)
        kept
      ∙ ap (λ b. enqueue_if (ok b) name store again reply (now + n) later)
          {x = leb (now + suc m) (now + n)} {y = false} (ground arith)

  -- A task that was dispatched is not dispatched again within its interval, unless forced: the later
  -- call replies False and changes nothing, as long as the time of the dispatch is kept.
  pub run_if_due_interval-spaced :
      (ttl_pos : 0 < limits.task_lock_ttl_seconds) (name : Text) (store : MetadataStore)
      (fresh again : Fresh) (reply : Result Bool) (now n interval : ℕ) (s : Server)
      → (try_enqueue redis limits name store fresh (ok true) now s).0 ≡ ok true
      → n < interval
      → survives n (positive store.ttl_seconds) ≡ true
      → let later = wait n (try_enqueue redis limits name store fresh (ok true) now s).1 in
        run_if_due_interval (seconds interval) false name store again reply (now + n) later
        ≡ (ok false, later)
  run_if_due_interval-spaced ttl_pos name store fresh again reply now n interval s done short
        lives =
      elim (acquire_cases redis limits ttl_pos name store.metadata_key fresh s) [
        | inl (skipped, same, why) ↦ absurd (
            ground (
              arith,
              done,
              ap (λ (p : Result Bool × Server). p.0)
                  (skipped_step redis limits ttl_pos name store fresh s (ok true) now skipped),
            ))
        | inr (i, got) ↦
            let bound = all_bound redis limits ttl_pos name store fresh s i got in
            let stepped =
              try_enqueue_step redis limits ttl_pos name store fresh s i got (ok true) now
              ∙ dispatch_done redis limits ttl_pos name store fresh s i got now in
            enqueue_if-not_due name store again reply now n interval
              (wait n (try_enqueue redis limits name store fresh (ok true) now s).1)
              (ap (λ (p : Result Bool × Server). read redis store (wait n p.1)) stepped
                ∙ read-wait-write store now n bound lives)
              short
      ]
