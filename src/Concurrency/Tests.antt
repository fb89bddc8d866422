-- ===== src/Concurrency/Tests.antt =====
-- Runs of the scheduler over the server in memory, and the theorems at concrete inputs.
use remote_connect_backend.Base.{
  ◌+◌, ◌≤◌, ◌≡◌, refl, ◌≢◌, ◌↔◌, false, true, none, some, is_some, ◌++◌, arith, if◌then◌else◌,
}
use remote_connect_backend.Base.Text.{Text, codes, ◌≐◌}
use remote_connect_backend.Base.Action.{ok, raised, other}
use remote_connect_backend.Redis.{raw, last_enqueued}
use remote_connect_backend.Redis.Memory.{memory, Cells, empty}
use remote_connect_backend.Concurrency.Keys.{
  map_key, task_lock_map_prefix, build_task_lock_key, slot_key, slot_keys, scheduler_prefix,
}
use remote_connect_backend.Concurrency.Resources.{
  Limits, reserve_task_slot, try_lock_task, map_task_to_lock, unlock_task_execution,
}
use remote_connect_backend.Concurrency.Resources.Claiming.{occupied, reserve_task_slot-occupied}
use remote_connect_backend.Concurrency.Resources.Takeover.{unlock_task_execution-takeover}
use remote_connect_backend.Concurrency.Scheduler.{Fresh, MetadataStore, try_enqueue, after_return}
use remote_connect_backend.Concurrency.Scheduler.Enqueue.{
  try_enqueue-outcome, try_enqueue-all_or_nothing,
}
use remote_connect_backend.Concurrency.Scheduler.Due.{
  seconds, run_if_due_interval, run_if_due_interval-spaced,
}
use remote_connect_backend.Concurrency.Scheduler.Return.{try_enqueue-after_return}

abbrev limits : Limits
limits = record { max_running_tasks = 2; task_lock_ttl_seconds = 60 }

-- Slot 0 is taken.
abbrev one_taken : Cells
one_taken = memory.set_ex (slot_key 0) (raw (codes "t0")) 60 empty

abbrev fresh : Fresh
fresh = record {
  owner_token = codes "aa";
  slot_token = codes "bb";
  task_id_head = b'1';
  task_id_tail = codes "f";
}

abbrev store : MetadataStore
store = record { metadata_key = codes "meta:report"; ttl_seconds = some 86400 }

reserve_task_slot-occupied_example :
    let (reserved, s') = reserve_task_slot memory limits (codes "bb") one_taken in
    ((reserved ≡ none) ↔ (occupied memory one_taken (slot_keys 2) ≡ 2))
    × (occupied memory s' (slot_keys 2)
        ≡ occupied memory one_taken (slot_keys 2) + (if is_some reserved then 1 else 0))
    × (occupied memory s' (slot_keys 2) ≤ 2)
reserve_task_slot-occupied_example =
    reserve_task_slot-occupied memory limits (omega arith) (codes "bb") one_taken

abbrev report_lock : Text
report_lock = build_task_lock_key (codes "report") (codes "meta:report")

-- The lock is gone 20 + 45 seconds after it was taken, and the mapping lives 15 more.
unlock_task_execution-takeover_example :
    let (taken, s1) = try_lock_task memory limits report_lock (codes "old") one_taken in
    let s2 = memory.wait 45 (
      map_task_to_lock memory limits
        (some (codes "1f"))
        report_lock
        (codes "old")
        (memory.wait 20 s1)) in
    let (again, s3) = try_lock_task memory limits report_lock (codes "new") s2 in
    let (r, s4) = unlock_task_execution memory limits (some (codes "1f")) s3 in
    (taken ≡ some (codes "old"))
    × (again ≡ some (codes "new"))
    × (r ≡ ok tt)
    × (memory.get s4 report_lock ≡ some (raw (codes "new")))
    × (memory.get s4 (map_key task_lock_map_prefix (codes "1f")) ≡ none)
unfolding build_task_lock_key slot_key
unlock_task_execution-takeover_example =
    unlock_task_execution-takeover memory limits (omega arith) (codes "report")
      (codes "meta:report") b'1' (codes "f") (codes "old") (codes "new") 20 45 one_taken refl refl
      (omega arith)

failed_dispatch :
    (try_enqueue memory limits (codes "report") store fresh (raised other) 7 empty).0 ≢ ok true
failed_dispatch e = cc (
    try_enqueue-outcome memory limits (omega arith) (codes "report") store fresh empty
      (raised other) 7)

-- The slot that the call had claimed is free again.
try_enqueue-all_or_nothing_example :
    memory.get
      (try_enqueue memory limits (codes "report") store fresh (raised other) 7 empty).1
      (slot_key 0)
    ≡ none
try_enqueue-all_or_nothing_example =
    try_enqueue-all_or_nothing memory limits (omega arith) (codes "report") store fresh empty
      (raised other) 7 refl refl failed_dispatch (slot_key 0)

outside : (t : Text) → (scheduler_prefix ++ t ≐ codes "meta:report") ≡ false
outside t = refl

try_enqueue-after_return_example :
    let s1 = (try_enqueue memory limits (codes "report") store fresh (ok true) 7 empty).1 in
    let (r, s') = after_return memory limits (some (codes "1f")) s1 in
    (r ≡ ok tt)
    × ((j : Text)
        → memory.get s' j ≡ (if codes "meta:report" ≐ j then some (last_enqueued 7) else none))
try_enqueue-after_return_example =
    try_enqueue-after_return memory limits (omega arith) (codes "report") store fresh empty 7
      outside refl refl
      (try_enqueue-outcome memory limits (omega arith) (codes "report") store fresh empty (ok true)
        7)

report_done : (try_enqueue memory limits (codes "report") store fresh (ok true) 7 empty).0 ≡ ok true
report_done =
    try_enqueue-outcome memory limits (omega arith) (codes "report") store fresh empty (ok true) 7

run_if_due_interval-spaced_example :
    let later =
      memory.wait 30 (try_enqueue memory limits (codes "report") store fresh (ok true) 7 empty).1 in
    run_if_due_interval memory limits
      (seconds 60)
      false
      (codes "report")
      store
      fresh
      (ok true)
      37
      later
    ≡ (ok false, later)
run_if_due_interval-spaced_example =
    run_if_due_interval-spaced memory limits (omega arith) (codes "report") store fresh fresh
      (ok true) 7 30 60 empty report_done (omega arith) refl
