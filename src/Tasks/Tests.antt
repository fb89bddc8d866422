-- ===== src/Tasks/Tests.antt =====
-- Runs of the tracking and of the watchdog, and the theorems at concrete inputs.
use remote_connect_backend.Base.{
  ◌+◌, ◌≤◌, ◌≡◌, refl, true, false, none, some, List, [], ◌∷◌, if◌then◌else◌, All,
}
use remote_connect_backend.Base.Text.{Text, codes}
use remote_connect_backend.Base.Action.{ok, raised, ignore, other}
use remote_connect_backend.Redis.Memory.{memory, empty}
use remote_connect_backend.Concurrency.Resources.{Limits}
use remote_connect_backend.Tasks.Runs.{TaskRun, Runs, NewRun, running, local, to_uuid, find_run}
use remote_connect_backend.Tasks.Tracking.{
  before_start, Event, enqueued, starts, fails, deleted, run,
}
use remote_connect_backend.Tasks.Tracking.Past.{past_queued}
use remote_connect_backend.Tasks.Tracking.Fencing.{
  executions, fenced, executions-past_queued, before_start-past_queued,
}
use remote_connect_backend.Tasks.Tracking.Timing.{AllTimed, run-AllTimed}
use remote_connect_backend.Tasks.Watchdog.{detect_abandoned_task_runs}
use remote_connect_backend.Tasks.Watchdog.Sweeping.{IsHex, is_interrupted}
use remote_connect_backend.Tasks.Watchdog.Releases.{Mapped}
use remote_connect_backend.Tasks.Watchdog.Outcome.{
  is_abandoned, detect_abandoned_task_runs-keeps, detect_abandoned_task_runs-is_interrupted,
}

abbrev task_id : Text
task_id = codes "0123456789abcdef0123456789abcdef"

-- The same UUID as Celery writes it.
abbrev dashed : Text
dashed = codes "01234567-89AB-cdef-0123-456789abcdef"

abbrev other_id : Text
other_id = codes "ffffffffffffffffffffffffffffffff"

dashed_uuid : to_uuid dashed ≡ some task_id
unfolding to_uuid
dashed_uuid = refl

abbrev report : NewRun
report = record { new_task_name = codes "report"; new_tag = none; new_name = none }

-- The message is delivered three times; the second delivery comes before the failure, the third
-- after it.
abbrev deliveries : List Event
deliveries =
    enqueued true 1 task_id report
    ∷ starts false true 2 dashed report false (ok tt)
    ∷ starts false true 3 dashed report false (ok tt)
    ∷ fails true 4 task_id (some (codes "boom"))
    ∷ starts false true 5 task_id report true (ok tt)
    ∷ deleted (other_id ∷ [])
    ∷ []

deliveries-fenced : fenced task_id deliveries ≡ true
unfolding fenced
deliveries-fenced = refl

executions-past_queued_example :
    executions task_id deliveries [] + (if past_queued task_id [] then 1 else 0) ≤ 1
executions-past_queued_example = executions-past_queued task_id deliveries [] deliveries-fenced

before_start-past_queued_example :
    let x = before_start false true 2 dashed report false (raised other) [] in
    (x.0 ≡ (if past_queued task_id [] then raised ignore else raised other))
    × (past_queued task_id x.1 ≡ true)
before_start-past_queued_example =
    before_start-past_queued 2 dashed report false (raised other) task_id [] dashed_uuid

nothing-AllTimed : AllTimed []
unfolding AllTimed find_run
nothing-AllTimed id = refl

run-AllTimed_example : AllTimed (run deliveries [])
run-AllTimed_example = run-AllTimed deliveries [] nothing-AllTimed

abbrev started : Text → TaskRun
started id = record {
  run_id = id;
  task_name = codes "report";
  tag = none;
  name = none;
  status = running;
  is_retry = false;
  created_at = 10;
  started_at = some 11;
  finished_at = none;
  error = none;
  log_s3_bucket = none;
  log_s3_path = none;
  log_s3_url = none;
  log_retention_status = local;
}

abbrev two_runs : Runs
two_runs = started task_id ∷ started other_id ∷ []

two_runs-IsHex : All IsHex two_runs
unfolding to_uuid
two_runs-IsHex = (refl, (refl, tt))

two_runs-Keyed :
    (find_run task_id (started other_id ∷ []) ≡ none) × ((find_run other_id [] ≡ none) × Unit {0})
unfolding find_run
two_runs-Keyed = (refl, (refl, tt))

abbrev limits : Limits
limits = record { max_running_tasks = 2; task_lock_ttl_seconds = 60 }

empty-Mapped : Mapped memory limits empty
empty-Mapped prefix c id = refl

live_not_abandoned : is_abandoned (task_id ∷ []) none 400 task_id two_runs ≡ false
unfolding is_abandoned find_run
live_not_abandoned = refl

dead_abandoned : is_abandoned (task_id ∷ []) none 400 other_id two_runs ≡ true
unfolding is_abandoned find_run
dead_abandoned = refl

detect_abandoned_task_runs-keeps_example :
    find_run task_id
      (detect_abandoned_task_runs memory limits
        (some (task_id ∷ []))
        none
        400
        (λ id. 700)
        (two_runs, empty)).1.0
    ≡ find_run task_id two_runs
detect_abandoned_task_runs-keeps_example =
    detect_abandoned_task_runs-keeps memory limits (task_id ∷ []) none 400 (λ id. 700) two_runs
      empty task_id two_runs-Keyed two_runs-IsHex live_not_abandoned

detect_abandoned_task_runs-is_interrupted_example :
    let x =
      detect_abandoned_task_runs memory limits
        (some (task_id ∷ []))
        none
        400
        (λ id. 700)
        (two_runs, empty) in
    (x.0 ≡ ok tt) × (is_interrupted (find_run other_id x.1.0) ≡ true)
detect_abandoned_task_runs-is_interrupted_example =
    detect_abandoned_task_runs-is_interrupted memory limits (task_id ∷ []) none 400 (λ id. 700)
      two_runs empty other_id two_runs-Keyed two_runs-IsHex empty-Mapped dead_abandoned
