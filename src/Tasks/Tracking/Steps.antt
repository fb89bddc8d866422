-- ===== src/Tasks/Tracking/Steps.antt =====
-- What the single changes of the table of runs keep, each event keeps.
use remote_connect_backend.Base.{ℕ, ◌≡◌, refl, Bool, true, false, Option, none, some, List}
use remote_connect_backend.Base.Text.{Text}
use remote_connect_backend.Base.Action.{Result, Action, ok}
use remote_connect_backend.Tasks.Runs.{
  Status, success, failed, interrupted, Runs, NewRun, to_uuid, find_run, change_run, set_running,
  set_ended, set_archived, at_uuid, insert_queued, create_task_run, mark, mark_running,
  mark_success, mark_failed, mark_interrupted, set_log_archived, upsert, try_start, delete_by_ids,
  is_open,
}
use remote_connect_backend.Tasks.Tracking.{
  tracked, on_task_enqueued, on_task_started, on_task_success, on_task_failed, tracking_try_start,
  fenced_start, before_start, Event, enqueued, starts, succeeds, fails, abandoned, log_archived,
  deleted, step,
}

module _ (P : Runs → Type 0) where
  at_uuid-keeps :
      {A : Type 0} (uuid : Option Text) (k : Text → Action Runs A) (rs : Runs)
      → P rs
      → ((id : Text) → P (k id rs).1)
      → P (at_uuid uuid k rs).1
  at_uuid-keeps none k rs h kept = h
  at_uuid-keeps (some id) k rs h kept = kept id

  tracked-keeps :
      {A : Type 0} (available : Bool) (statement : Action Runs A) (rs : Runs)
      → P rs
      → P (statement rs).1
      → P (tracked available statement rs)
  tracked-keeps false statement rs h kept = h
  tracked-keeps true statement rs h kept = kept

  fenced_start-keeps :
      (x : Bool × Runs) (on_start : Result (Unit {0})) → P x.1 → P (fenced_start x on_start).1
  fenced_start-keeps (true, rs) on_start kept = kept
  fenced_start-keeps (false, rs) on_start kept = kept

  module _
      (inserted : (now : ℕ) (new : NewRun) (id : Text) (rs : Runs)
        → P rs
        → P (insert_queued now new id rs))
      (set_run : (now : ℕ) (retry : Bool) (id : Text) (rs : Runs)
        → P rs
        → P (change_run (set_running now retry) id rs))
      (ended : (status : Status) (now : ℕ) (error : Option Text) (id : Text) (rs : Runs)
        → is_open status ≡ false
        → P rs
        → P (change_run (set_ended status now error) id rs))
      (archived : (bucket path url id : Text) (rs : Runs)
        → P rs
        → P (change_run (set_archived bucket path url) id rs))
      (upserted : (now : ℕ) (new : NewRun) (retry : Bool) (id : Text) (rs : Runs)
        → P rs
        → P (upsert now new retry id (find_run id rs) rs).1) where
    before_start-keeps :
        (redeliver available : Bool) (now : ℕ) (task_id : Text) (new : NewRun) (retry : Bool)
        (on_start : Result (Unit {0})) (rs : Runs)
        → P rs
        → P (before_start redeliver available now task_id new retry on_start rs).1
    unfolding before_start on_task_started mark_running mark tracking_try_start try_start
    before_start-keeps true available now task_id new retry on_start rs h =
        tracked-keeps available (mark_running now retry task_id) rs h (
          at_uuid-keeps (to_uuid task_id)
            (λ id s. (
              ok (find_run id (change_run (set_running now retry) id s)),
              change_run (set_running now retry) id s,
            ))
            rs h (λ id. set_run now retry id rs h))
    before_start-keeps false false now task_id new retry on_start rs h = h
    before_start-keeps false true now task_id new retry on_start rs h =
        fenced_start-keeps (tracking_try_start true now task_id new retry rs) on_start (
          at_uuid-keeps (to_uuid task_id) (λ id s. upsert now new retry id (find_run id s) s) rs h
            (λ id. upserted now new retry id rs h))

    ended-keeps :
        (status : Status) (now : ℕ) (error : Option Text) (task_id : Text) (rs : Runs)
        → is_open status ≡ false
        → P rs
        → P (mark (set_ended status now error) task_id rs).1
    unfolding mark
    ended-keeps status now error task_id rs over h =
        at_uuid-keeps (to_uuid task_id)
          (λ id s. (
            ok (find_run id (change_run (set_ended status now error) id s)),
            change_run (set_ended status now error) id s,
          ))
          rs h (λ id. ended status now error id rs over h)

    pub step-preserves :
        (e : Event) (rs : Runs)
        → P rs
        → ((ids : List Text) → e ≡ deleted ids → P (delete_by_ids ids rs))
        → P (step e rs)
    unfolding step on_task_enqueued create_task_run on_task_success on_task_failed mark_success
        mark_failed mark_interrupted set_log_archived
    step-preserves (enqueued available now task_id new) rs h _ =
        tracked-keeps available (create_task_run now task_id new) rs h (
          at_uuid-keeps (to_uuid task_id)
            (λ id s. (ok (find_run id (insert_queued now new id s)), insert_queued now new id s)) rs
            h (λ id. inserted now new id rs h))
    step-preserves (starts redeliver available now task_id new retry on_start) rs h _ =
        before_start-keeps redeliver available now task_id new retry on_start rs h
    step-preserves (succeeds available now task_id) rs h _ =
        tracked-keeps available (mark_success now task_id) rs h
          (ended-keeps success now none task_id rs refl h)
    step-preserves (fails available now task_id error) rs h _ =
        tracked-keeps available (mark_failed now error task_id) rs h
          (ended-keeps failed now error task_id rs refl h)
    step-preserves (abandoned now task_id reason) rs h _ =
        ended-keeps interrupted now reason task_id rs refl h
    step-preserves (log_archived bucket path url task_id) rs h _ =
        at_uuid-keeps (to_uuid task_id)
          (λ id s. (ok tt, change_run (set_archived bucket path url) id s)) rs h
          (λ id. archived bucket path url id rs h)
    step-preserves (deleted ids) rs h gone = gone ids refl
