-- ===== src/Concurrency/Resources/Takeover.antt =====
-- A task's lock from the hold of one owner to that of another, and a late release of the first.
use remote_connect_backend.Base.{
  ℕ, ◌+◌, ◌<◌, ◌≡◌, refl, ◌∙◌, sym, subst, ap, Bool, false, Option, none, some, ◌∷◌, arith,
  if◌then◌else◌, leb,
}
use remote_connect_backend.Base.Text.{Text, ◌≐◌, ≐_self}
use remote_connect_backend.Base.Action.{Result, ok}
use remote_connect_backend.Redis.{Redis, raw, binding, redis_set, aged, survives}
use remote_connect_backend.Redis.Waiting.{get-waited}
use remote_connect_backend.Concurrency.Keys.{
  build_task_lock_key, map_key, task_lock_map_prefix, lock_map-ne-lock, lock-ne-lock_map,
}
use remote_connect_backend.Concurrency.Resources.{
  Limits, map_task_to_lock, bind_task_id_to_resource, unlock_task_execution, try_lock_task,
}
use remote_connect_backend.Concurrency.Resources.Binding.{
  release_by_id_lem, unlock_task_execution_lem, try_lock_task_lem,
}

module _ (redis : Redis) (limits : Limits) (ttl_pos : 0 < limits.task_lock_ttl_seconds) where
  open redis use {Server, get, life, wait, set_ex, get-set_ex, life-set_ex, get-wait, life-wait}

  abbrev ttl : ℕ
  ttl = limits.task_lock_ttl_seconds

  module _ (task_name tracking_key : Text) (c : ℕ) (id first : Text) (m n : ℕ) (s : Server) where
    abbrev lock : Text
    lock = build_task_lock_key task_name tracking_key

    abbrev mapping : Text
    mapping = map_key task_lock_map_prefix (c ∷ id)

    -- The lock is taken, mapped to the task's id some seconds later, and some seconds pass.
    abbrev mapped_at : Server
    mapped_at = set_ex mapping (binding lock first) ttl (wait m (set_ex lock (raw first) ttl s))

    mapping_apart : (mapping ≐ lock) ≡ false
    mapping_apart = lock_map-ne-lock task_name tracking_key (c ∷ id) id 0

    lock_life : life mapped_at lock ≡ aged m (some ttl)
    lock_life =
        life-set_ex mapping lock (binding lock first) ttl (wait m (set_ex lock (raw first) ttl s))
          ttl_pos
        ∙ ground (
          arith,
          mapping_apart,
          life-wait m (set_ex lock (raw first) ttl s) lock,
          life-set_ex lock lock (raw first) ttl s ttl_pos,
          ≐_self lock,
        )

    lock_value : get mapped_at lock ≡ (if survives m (some ttl) then some (raw first) else none)
    lock_value =
        get-set_ex mapping lock (binding lock first) ttl (wait m (set_ex lock (raw first) ttl s))
          ttl_pos
        ∙ ground (
          arith,
          mapping_apart,
          get-wait m (set_ex lock (raw first) ttl s) lock,
          get-set_ex lock lock (raw first) ttl s ttl_pos,
          life-set_ex lock lock (raw first) ttl s ttl_pos,
          ≐_self lock,
        )

    lock_later : get (wait n mapped_at) lock ≡ (if leb ttl (m + n) then none else some (raw first))
    lock_later =
        get-wait n mapped_at lock
        ∙ ap (λ o. if survives n o then get mapped_at lock else none) lock_life
        ∙ ap (λ v. if survives n (aged m (some ttl)) then v else none) lock_value
        ∙ ground arith

    mapping_later : n < ttl → get (wait n mapped_at) mapping ≡ some (binding lock first)
    mapping_later young =
        get-waited redis n mapping (binding lock first) ttl (wait m (set_ex lock (raw first) ttl s))
          ttl_pos
        ∙ ground (arith, young)

    -- What a release by the task's id comes to, once another owner has tried to take the lock.
    module _ (second : Text) (young : n < ttl) (differ : (second ≐ first) ≡ false) where
      abbrev over : Bool
      over = leb ttl (m + n)

      abbrev tried : Option Text × Server
      tried = try_lock_task redis limits lock second (wait n mapped_at)

      tried_step : tried ≡ (
          if over
          then (some second, set_ex lock (raw second) ttl (wait n mapped_at))
          else (none, wait n mapped_at))
      tried_step =
          try_lock_task_lem redis limits ttl_pos lock second (wait n mapped_at)
          ∙ ground (arith, lock_later)

      tried_lock : get tried.1 lock ≡ some (raw (if over then second else first))
      tried_lock =
          ap (λ x. get x.1 lock) tried_step
          ∙ ground (
            arith,
            lock_later,
            get-set_ex lock lock (raw second) ttl (wait n mapped_at) ttl_pos,
            ≐_self lock,
          )

      tried_mapping : get tried.1 mapping ≡ some (binding lock first)
      tried_mapping =
          ap (λ x. get x.1 mapping) tried_step
          ∙ ground (
            arith,
            mapping_later young,
            get-set_ex lock mapping (raw second) ttl (wait n mapped_at) ttl_pos,
            lock-ne-lock_map task_name tracking_key (c ∷ id) id 0,
          )

      released :
          let (r, s4) = unlock_task_execution redis limits (some (c ∷ id)) tried.1 in
          (r ≡ ok tt)
          × (get s4 lock ≡ (if over then some (raw second) else none))
          × (get s4 mapping ≡ none)
      released =
          let (done, left) =
            release_by_id_lem redis limits c id task_lock_map_prefix lock first tried.1
              tried_mapping in
          let same = sym (unlock_task_execution_lem redis limits (some (c ∷ id))) in
          subst
            (λ (f : Server → Result (Unit {0}) × Server).
              ((f tried.1).0 ≡ ok tt)
              × (get (f tried.1).1 lock ≡ (if over then some (raw second) else none))
              × (get (f tried.1).1 mapping ≡ none))
            same
            (
              done,
              left lock
                  ∙ ground (
                    arith,
                    mapping_apart,
                    tried_mapping,
                    tried_lock,
                    differ,
                    ≐_self lock,
                    ≐_self first,
                  ),
              left mapping ∙ ground (arith, ≐_self mapping),
            )

  -- A free lock is taken by a first owner, mapped to a task's id m seconds later, and tried by a second
  -- one n seconds after that, while the mapping lives. The second one gets it exactly if it has expired.
  -- A release by the task's id then succeeds, deletes the mapping and frees the lock of the first
  -- owner, but leaves that of the second one. The owner tokens differ.
  pub unlock_task_execution-takeover :
      (task_name tracking_key : Text) (c : ℕ) (id first second : Text) (m n : ℕ) (s : Server)
      → let lock_key = build_task_lock_key task_name tracking_key in
        get s lock_key ≡ none
        → (second ≐ first) ≡ false
        → n < limits.task_lock_ttl_seconds
        → let (taken, s1) = try_lock_task redis limits lock_key first s in
          let s2 =
            wait n (map_task_to_lock redis limits (some (c ∷ id)) lock_key first (wait m s1)) in
          let (again, s3) = try_lock_task redis limits lock_key second s2 in
          let (r, s4) = unlock_task_execution redis limits (some (c ∷ id)) s3 in
          let expired = leb limits.task_lock_ttl_seconds (m + n) in
          (taken ≡ some first)
          × (again ≡ (if expired then some second else none))
          × (r ≡ ok tt)
          × (get s4 lock_key ≡ (if expired then some (raw second) else none))
          × (get s4 (map_key task_lock_map_prefix (c ∷ id)) ≡ none)
  unfolding map_task_to_lock bind_task_id_to_resource redis_set
  unlock_task_execution-takeover task_name tracking_key c id first second m n s free differ young =
      let lock_key = build_task_lock_key task_name tracking_key in
      let taken : try_lock_task redis limits lock_key first s
          ≡ (some first, set_ex lock_key (raw first) ttl s) =
        try_lock_task_lem redis limits ttl_pos lock_key first s ∙ ground (arith, free) in
      let again_step = tried_step task_name tracking_key c id first m n s second young differ in
      let (done, lock_left, mapping_left) =
        released task_name tracking_key c id first m n s second young differ in
      let again_at : Option Text × Server → Option Text × Server = λ x.
        try_lock_task redis limits lock_key second
          (wait n (map_task_to_lock redis limits (some (c ∷ id)) lock_key first (wait m x.1))) in
      let expired = leb ttl (m + n) in
      subst
        (λ x.
          let (r, s4) = unlock_task_execution redis limits (some (c ∷ id)) (again_at x).1 in
          (x.0 ≡ some first)
          × ((again_at x).0 ≡ (if expired then some second else none))
          × (r ≡ ok tt)
          × (get s4 lock_key ≡ (if expired then some (raw second) else none))
          × (get s4 (map_key task_lock_map_prefix (c ∷ id)) ≡ none))
        (sym taken) (refl, ap (λ x. x.0) again_step ∙ ground arith, done, lock_left, mapping_left)
