-- ===== src/Tasks/Tracking/Timing.antt =====
-- The times of a run fit its status.
use remote_connect_backend.Base.{
  ℕ, ◌≡◌, refl, ◌∙◌, sym, ap, Bool, true, false, not, ◌&&◌, ◌||◌, Option, none, some, is_some, List,
  [], ◌∷◌, ◌++◌, arith, if_cases, Option-cases, inl, inr,
}
use remote_connect_backend.Base.Text.{Text}
use remote_connect_backend.Tasks.Runs.{
  Status, queued, running, success, failed, interrupted, TaskRun, Runs, NewRun, is_queued, is_open,
  find_run, change_run, queued_run, set_running, set_ended, set_archived, insert_queued, upsert,
  delete_by_ids,
}
use remote_connect_backend.Tasks.Runs.Queries.{
  find_run-append, find_run-change_run, find_run-delete_by_ids,
}
use remote_connect_backend.Base.Action.{Result, ok}
use remote_connect_backend.Tasks.Tracking.{Event, step, run}
use remote_connect_backend.Tasks.Tracking.Steps.{step-preserves}

-- A run in the queue has neither time, a run that has ended has both, and one that has a time of
-- its end has a time of its start.
unfoldable pub is_timed : TaskRun → Bool
is_timed r =
    (not (is_queued r.status) || not (is_some r.started_at) && not (is_some r.finished_at))
    && ((is_open r.status || is_some r.finished_at)
        && (not (is_some r.finished_at) || is_some r.started_at))

abbrev timed_if_any : Option TaskRun → Bool
timed_if_any none = true
timed_if_any (some r) = is_timed r

unfoldable pub AllTimed : Runs → Type 0
AllTimed rs = (id : Text) → timed_if_any (find_run id rs) ≡ true

change_run-AllTimed :
    (f : TaskRun → TaskRun)
    → ((r : TaskRun) → (f r).run_id ≡ r.run_id)
    → ((r : TaskRun) → is_timed r ≡ true → is_timed (f r) ≡ true)
    → (k : Text) (rs : Runs) → AllTimed rs
    → AllTimed (change_run f k rs)
unfolding AllTimed
change_run-AllTimed f same_id keeps k rs h id = elim (Option-cases (find_run id rs)) [
  | inl nothing ↦ ground (arith, nothing, find_run-change_run f same_id k id rs)
  | inr (r, here) ↦
      let timed : is_timed r ≡ true = ap timed_if_any (sym here) ∙ h id in
      ground (arith, here, find_run-change_run f same_id k id rs, keeps r timed, timed)
]

append-AllTimed :
    (r : TaskRun) (rs : Runs) → is_timed r ≡ true → AllTimed rs → AllTimed (rs ++ r ∷ [])
unfolding AllTimed
append-AllTimed r rs timed h id = ground (arith, h id, find_run-append id rs r, timed)

set_running-timed :
    (now : ℕ) (retry : Bool) (r : TaskRun)
    → is_timed r ≡ true
    → is_timed (set_running now retry r) ≡ true
unfolding is_timed set_running
set_running-timed now retry r h = ground arith

set_ended-timed :
    (s : Status) (now : ℕ) (error : Option Text) (r : TaskRun)
    → is_open s ≡ false
    → is_timed (set_ended s now error r) ≡ true
unfolding is_timed set_ended
set_ended-timed queued now error r over = absurd (ground arith)
set_ended-timed running now error r over = absurd (ground arith)
set_ended-timed success now error r over = ground arith
set_ended-timed failed now error r over = ground arith
set_ended-timed interrupted now error r over = ground arith

queued_run-timed : (now : ℕ) (id : Text) (new : NewRun) → is_timed (queued_run now id new) ≡ true
unfolding is_timed queued_run
queued_run-timed now id new = refl

insert_queued-AllTimed :
    (now : ℕ) (new : NewRun) (k : Text) (rs : Runs)
    → AllTimed rs
    → AllTimed (insert_queued now new k rs)
unfolding insert_queued
insert_queued-AllTimed now new k rs h =
    if_cases AllTimed (is_some (find_run k rs)) rs (rs ++ queued_run now k new ∷ []) (λ _. h)
      (λ _. append-AllTimed (queued_run now k new) rs (queued_run-timed now k new) h)

set_running-AllTimed :
    (now : ℕ) (retry : Bool) (k : Text) (rs : Runs)
    → AllTimed rs
    → AllTimed (change_run (set_running now retry) k rs)
unfolding set_running
set_running-AllTimed now retry =
    change_run-AllTimed (set_running now retry) (λ r. refl) (set_running-timed now retry)

upsert-AllTimed :
    (now : ℕ) (new : NewRun) (retry : Bool) (k : Text) (rs : Runs) (found : Option TaskRun)
    → AllTimed rs
    → AllTimed (upsert now new retry k found rs).1
upsert-AllTimed now new retry k rs none h =
    append-AllTimed (set_running now retry (queued_run now k new)) rs
      (set_running-timed now retry (queued_run now k new) (queued_run-timed now k new)) h
upsert-AllTimed now new retry k rs (some r) h =
    if_cases (λ (x : Result Bool × Runs). AllTimed x.1) (is_queued r.status)
      (ok true, change_run (set_running now retry) k rs) (ok false, rs)
      (λ _. set_running-AllTimed now retry k rs h) (λ _. h)

delete_by_ids-AllTimed :
    (ids : List Text) (rs : Runs) → AllTimed rs → AllTimed (delete_by_ids ids rs)
unfolding AllTimed
delete_by_ids-AllTimed ids rs h id = ground (arith, h id, find_run-delete_by_ids id ids rs)

step-AllTimed : (e : Event) (rs : Runs) → AllTimed rs → AllTimed (step e rs)
unfolding set_ended set_archived is_timed
step-AllTimed e rs h =
    step-preserves AllTimed insert_queued-AllTimed set_running-AllTimed
      (λ s now error k rs over.
        change_run-AllTimed (set_ended s now error) (λ r. refl)
          (λ r _. set_ended-timed s now error r over) k rs)
      (λ bucket path url.
        change_run-AllTimed (set_archived bucket path url) (λ r. refl) (λ r timed. timed))
      (λ now new retry k s. upsert-AllTimed now new retry k s (find_run k s)) e rs h
      (λ ids _. delete_by_ids-AllTimed ids rs h)

-- Along any events, the times of each run fit its status: a run in the queue has neither time, a run
-- that has ended has both, and one with a time of its end has a time of its start.
pub run-AllTimed : (es : List Event) (rs : Runs) → AllTimed rs → AllTimed (run es rs)
unfolding run
run-AllTimed [] rs h = h
run-AllTimed (e ∷ es) rs h = run-AllTimed es (step e rs) (step-AllTimed e rs h)
