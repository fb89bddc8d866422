-- ===== src/Tasks/Tracking.antt =====
-- apps/app/modules/task/services/task_tracking_service.py, and the hooks of
-- `LifecycleAwareCeleryTask` in apps/app/utils/decorators/task_decorator.py that call it. `available`
-- tells whether the database answers. The message to the monitor's sockets is left out.
pub mod Steps
pub mod Past
pub mod Fencing
pub mod Timing
use remote_connect_backend.Base.{
  ℕ, Bool, true, false, Option, none, some, List, [], ◌∷◌, if◌then◌else◌,
}
use remote_connect_backend.Base.Text.{Text}
use remote_connect_backend.Base.Action.{Result, Action, ok, raised, ignore}
use remote_connect_backend.Tasks.Runs.{
  Runs, NewRun, create_task_run, mark_running, mark_success, mark_failed, mark_interrupted,
  set_log_archived, try_start, delete_by_ids,
}

-- `try` around a statement in a session of its own: what is raised is only logged.
abbrev pub tracked : {A : Type 0} → Bool → Action Runs A → Runs → Runs
tracked false statement rs = rs
tracked true statement rs = (statement rs).1

unfoldable pub on_task_enqueued : Bool → ℕ → Text → NewRun → Runs → Runs
on_task_enqueued available now task_id new = tracked available (create_task_run now task_id new)

unfoldable pub on_task_started : Bool → ℕ → Text → Bool → Runs → Runs
on_task_started available now task_id retry = tracked available (mark_running now retry task_id)

unfoldable pub on_task_success : Bool → ℕ → Text → Runs → Runs
on_task_success available now task_id = tracked available (mark_success now task_id)

unfoldable pub on_task_failed : Bool → ℕ → Text → Option Text → Runs → Runs
on_task_failed available now task_id error = tracked available (mark_failed now error task_id)

-- A check that fails lets the task start.
abbrev pub started_or : Result Bool → Bool
started_or (ok started) = started
started_or (raised e) = true

unfoldable pub tracking_try_start : Bool → ℕ → Text → NewRun → Bool → Runs → Bool × Runs
tracking_try_start false now task_id new retry rs = (true, rs)
tracking_try_start true now task_id new retry rs =
    let (started, rs') = try_start now task_id new retry rs in (started_or started, rs')

-- `before_start`. `on_start` is the outcome of the task's own callback.
abbrev pub fenced_start : Bool × Runs → Result (Unit {0}) → Result (Unit {0}) × Runs
fenced_start (true, rs) on_start = (on_start, rs)
fenced_start (false, rs) on_start = (raised ignore, rs)

unfoldable pub before_start :
    Bool → Bool → ℕ → Text → NewRun → Bool → Result (Unit {0}) → Action Runs (Unit {0})
before_start true available now task_id new retry on_start rs =
    (on_start, on_task_started available now task_id retry rs)
before_start false available now task_id new retry on_start rs =
    fenced_start (tracking_try_start available now task_id new retry rs) on_start

-- What happens to the table of runs, with the arguments of the operation.
pub data Event : Type 0 where
  enqueued : Bool → ℕ → Text → NewRun → Event
  starts : Bool → Bool → ℕ → Text → NewRun → Bool → Result (Unit {0}) → Event
  succeeds : Bool → ℕ → Text → Event
  fails : Bool → ℕ → Text → Option Text → Event
  abandoned : ℕ → Text → Option Text → Event
  log_archived : Text → Text → Text → Text → Event
  deleted : List Text → Event

unfoldable pub step : Event → Runs → Runs
step (enqueued available now task_id new) rs = on_task_enqueued available now task_id new rs
step (starts redeliver available now task_id new retry on_start) rs =
    (before_start redeliver available now task_id new retry on_start rs).1
step (succeeds available now task_id) rs = on_task_success available now task_id rs
step (fails available now task_id error) rs = on_task_failed available now task_id error rs
step (abandoned now task_id reason) rs = (mark_interrupted now reason task_id rs).1
step (log_archived bucket path url task_id) rs = (set_log_archived bucket path url task_id rs).1
step (deleted ids) rs = delete_by_ids ids rs

unfoldable pub run : List Event → Runs → Runs
run [] rs = rs
run (e ∷ es) rs = run es (step e rs)
