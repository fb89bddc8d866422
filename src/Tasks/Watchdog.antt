-- ===== src/Tasks/Watchdog.antt =====
-- `detect_abandoned_task_runs` of apps/app/modules/task/analysis/task_watchdog_analysis.py, over the
-- table of runs and the Redis server. What Celery reports as live is an argument, `none` where no
-- worker answers, and so are the id of the task that runs the watchdog, the cutoff and the time at
-- which each run is marked.
pub mod Sweeping
pub mod Releases
pub mod Outcome
use remote_connect_backend.Base.{
  ℕ, Bool, true, false, not, ◌&&◌, ◌||◌, Option, none, some, is_some, List, [], ◌∷◌, ◌++◌,
  if◌then◌else◌,
}
use remote_connect_backend.Base.Text.{Text, codes, ◌≐◌, contains}
use remote_connect_backend.Base.Action.{Result, Action, ok, raised, pure, ◌>>◌}
use remote_connect_backend.Redis.{Redis}
use remote_connect_backend.Concurrency.Resources.{
  Limits, release_execution_slot, unlock_task_execution,
}
use remote_connect_backend.Tasks.Runs.{TaskRun, Runs, mark_interrupted, get_stale}

abbrev pub reason : Text
reason =
    codes
      "Task abandoned: worker process no longer reports it as active or reserved (likely crashed mid-run)"

abbrev pub is_self : Option Text → Text → Bool
is_self none id = false
is_self (some self) id = id ≐ self

-- The two `continue` of the loop.
unfoldable pub is_skipped : Option Text → List Text → Text → Bool
is_skipped self live id = is_self self id || contains id live

module _ (redis : Redis) (limits : Limits) where
  open redis use {Server}

  -- `mark_interrupted`, and the two releases.
  unfoldable pub interrupt : (Text → ℕ) → Text → Action (Runs × Server) (Unit {0})
  interrupt now id (rs, s) =
      let (marked, rs') = mark_interrupted (now id) (some reason) id rs in
      elim marked [
        | raised e ↦ (raised e, (rs', s))
        | ok _ ↦
            let (released, s') =
              (release_execution_slot redis limits (some id)
                  >> unlock_task_execution redis limits (some id))
                s in
            (released, (rs', s'))
      ]

  unfoldable pub sweep :
      Option Text → List Text → (Text → ℕ) → Runs → Action (Runs × Server) (Unit {0})
  sweep self live now [] = pure tt
  sweep self live now (r ∷ candidates) =
      if is_skipped self live r.run_id
      then sweep self live now candidates
      else interrupt now r.run_id >> sweep self live now candidates

  unfoldable pub detect_abandoned_task_runs :
      Option (List Text) → Option Text → ℕ → (Text → ℕ) → Action (Runs × Server) (Unit {0})
  detect_abandoned_task_runs none self cutoff now x = (ok tt, x)
  detect_abandoned_task_runs (some live) self cutoff now (rs, s) =
      sweep self live now (get_stale cutoff rs) (rs, s)
