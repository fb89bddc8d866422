-- ===== src/Tasks/Tracking/Past.antt =====
-- No event takes a run back to the queue.
use remote_connect_backend.Base.{
  ℕ, ◌≡◌, refl, ◌∙◌, sym, ap, Bool, true, false, not, Option, none, some, List, [], ◌∷◌, ◌++◌,
  arith, Option-cases, inl, inr,
}
use remote_connect_backend.Base.Text.{Text, contains, ≐_self}
use remote_connect_backend.Base.Action.{ok}
use remote_connect_backend.Tasks.Runs.{
  Status, queued, running, success, failed, interrupted, TaskRun, Runs, NewRun, is_queued, is_open,
  find_run, change_run, queued_run, set_running, set_ended, set_archived, insert_queued, upsert,
  delete_by_ids,
}
use remote_connect_backend.Tasks.Runs.Queries.{
  find_run-append, find_run-change_run, find_run-delete_by_ids,
}
use remote_connect_backend.Tasks.Tracking.Steps.{step-preserves}
use remote_connect_backend.Tasks.Tracking.{Event, deleted, step}

-- The run with the id has been started.
abbrev pub past_queued_run : Option TaskRun → Bool
past_queued_run none = false
past_queued_run (some r) = not (is_queued r.status)

unfoldable pub past_queued : Text → Runs → Bool
past_queued id rs = past_queued_run (find_run id rs)

change_run-past_queued :
    (f : TaskRun → TaskRun)
    → ((r : TaskRun) → (f r).run_id ≡ r.run_id)
    → ((r : TaskRun) → is_queued r.status ≡ false → is_queued (f r).status ≡ false)
    → (k id : Text) (rs : Runs) → past_queued id rs ≡ true
    → past_queued id (change_run f k rs) ≡ true
unfolding past_queued
change_run-past_queued f same_id still k id rs h = elim (Option-cases (find_run id rs)) [
  | inl nothing ↦ absurd (ground (arith, nothing))
  | inr (r, here) ↦ ground (arith, here, find_run-change_run f same_id k id rs, still r)
]

set_running-past_queued :
    (now : ℕ) (retry : Bool) (k id : Text) (rs : Runs)
    → past_queued id rs ≡ true
    → past_queued id (change_run (set_running now retry) k rs) ≡ true
unfolding set_running
set_running-past_queued now retry =
    change_run-past_queued (set_running now retry) (λ r. refl) (λ r q. refl)

is_open-is_queued : (s : Status) → is_open s ≡ false → is_queued s ≡ false
is_open-is_queued queued h = absurd (ground arith)
is_open-is_queued running h = refl
is_open-is_queued success h = refl
is_open-is_queued failed h = refl
is_open-is_queued interrupted h = refl

set_ended-past_queued :
    (s : Status) (now : ℕ) (error : Option Text) (k id : Text) (rs : Runs)
    → is_open s ≡ false
    → past_queued id rs ≡ true
    → past_queued id (change_run (set_ended s now error) k rs) ≡ true
unfolding set_ended
set_ended-past_queued s now error k id rs over =
    change_run-past_queued (set_ended s now error) (λ r. refl) (λ r q. is_open-is_queued s over) k
      id rs

set_archived-past_queued :
    (bucket path url k id : Text) (rs : Runs)
    → past_queued id rs ≡ true
    → past_queued id (change_run (set_archived bucket path url) k rs) ≡ true
unfolding set_archived
set_archived-past_queued bucket path url =
    change_run-past_queued (set_archived bucket path url) (λ r. refl) (λ r q. q)

pub append-past_queued :
    (r : TaskRun) (id : Text) (rs : Runs)
    → past_queued id rs ≡ true
    → past_queued id (rs ++ r ∷ []) ≡ true
unfolding past_queued
append-past_queued r id rs h = elim (Option-cases (find_run id rs)) [
  | inl nothing ↦ absurd (ground (arith, nothing))
  | inr (x, here) ↦ ground (arith, here, find_run-append id rs r)
]

insert_queued-past_queued :
    (now : ℕ) (new : NewRun) (k id : Text) (rs : Runs)
    → past_queued id rs ≡ true
    → past_queued id (insert_queued now new k rs) ≡ true
unfolding insert_queued
insert_queued-past_queued now new k id rs h =
    ground (arith, append-past_queued (queued_run now k new) id rs h)

upsert-past_queued :
    (now : ℕ) (new : NewRun) (retry : Bool) (k id : Text) (rs : Runs) (found : Option TaskRun)
    → past_queued id rs ≡ true
    → past_queued id (upsert now new retry k found rs).1 ≡ true
upsert-past_queued now new retry k id rs none h =
    append-past_queued (set_running now retry (queued_run now k new)) id rs h
upsert-past_queued now new retry k id rs (some r) h =
    ground (arith, set_running-past_queued now retry k id rs h)

delete-past_queued :
    (id : Text) (ids : List Text) (rs : Runs)
    → contains id ids ≡ false
    → past_queued id rs ≡ true
    → past_queued id (delete_by_ids ids rs) ≡ true
unfolding past_queued
delete-past_queued id ids rs spared h = ground (arith, find_run-delete_by_ids id ids rs)

abbrev pub deletes : Text → Event → Bool
deletes id (deleted ids) = contains id ids
deletes id _ = false

pub step-past_queued :
    (e : Event) (id : Text) (rs : Runs)
    → deletes id e ≡ false
    → past_queued id rs ≡ true
    → past_queued id (step e rs) ≡ true
step-past_queued e id rs spared h =
    step-preserves (λ s. past_queued id s ≡ true)
      (λ now new k s. insert_queued-past_queued now new k id s)
      (λ now retry k s. set_running-past_queued now retry k id s)
      (λ status now error k s. set_ended-past_queued status now error k id s)
      (λ bucket path url k s. set_archived-past_queued bucket path url k id s)
      (λ now new retry k s. upsert-past_queued now new retry k id s (find_run k s)) e rs h
      (λ ids same. delete-past_queued id ids rs (ap (deletes id) (sym same) ∙ spared) h)

pub upsert-started :
    (now : ℕ) (new : NewRun) (retry : Bool) (id : Text) (rs : Runs) (found : Option TaskRun)
    → find_run id rs ≡ found
    → (upsert now new retry id found rs).0 ≡ ok (not (past_queued id rs))
unfolding past_queued
upsert-started now new retry id rs none e = ground (arith, e)
upsert-started now new retry id rs (some r) e = ground (arith, e)

pub upsert-is_past_queued :
    (now : ℕ) (new : NewRun) (retry : Bool) (id : Text) (rs : Runs) (found : Option TaskRun)
    → find_run id rs ≡ found
    → past_queued id (upsert now new retry id found rs).1 ≡ true
unfolding past_queued set_running queued_run
upsert-is_past_queued now new retry id rs none e =
    ground
      (arith, e, find_run-append id rs (set_running now retry (queued_run now id new)), ≐_self id)
upsert-is_past_queued now new retry id rs (some r) e =
    ground (arith, e, find_run-change_run (set_running now retry) (λ x. refl) id id rs, ≐_self id)
