-- ===== src/Tasks/Runs/Queries.antt =====
-- What `get_by_id` finds after the changes of the table of runs.
use remote_connect_backend.Base.{
  ◌≡◌, ap, Option, none, some, is_some, List, [], ◌∷◌, ◌++◌, arith, if◌then◌else◌,
}
use remote_connect_backend.Base.Text.{Text, ◌≐◌, eq_of-≐, ≐_self, contains}
use remote_connect_backend.Tasks.Runs.{TaskRun, Runs, find_run, change_run, delete_by_ids}

abbrev pub mapped : (TaskRun → TaskRun) → Option TaskRun → Option TaskRun
mapped f none = none
mapped f (some r) = some (f r)

pub find_run-append :
    (id : Text) (rs : Runs) (r : TaskRun)
    → find_run id (rs ++ r ∷ []) ≡ (
        if is_some (find_run id rs) then find_run id rs else if r.run_id ≐ id then some r else none)
unfolding find_run
find_run-append id [] r = ground arith
find_run-append id (x ∷ rs) r = ground (arith, find_run-append id rs r)

pub find_run-change_run :
    (f : TaskRun → TaskRun) (same_id : (r : TaskRun) → (f r).run_id ≡ r.run_id) (k id : Text)
    (rs : Runs)
    → find_run id (change_run f k rs)
      ≡ (if k ≐ id then mapped f (find_run id rs) else find_run id rs)
unfolding find_run change_run
find_run-change_run f same_id k id [] = ground arith
find_run-change_run f same_id k id (r ∷ rs) = ground (
  arith,
  find_run-change_run f same_id k id rs,
  same_id r,
  eq_of-≐ r.run_id k,
  eq_of-≐ k id,
  eq_of-≐ r.run_id id,
  ≐_self id,
  ≐_self k,
)

pub find_run-delete_by_ids :
    (id : Text) (ids : List Text) (rs : Runs)
    → find_run id (delete_by_ids ids rs) ≡ (if contains id ids then none else find_run id rs)
unfolding find_run delete_by_ids
find_run-delete_by_ids id ids [] = ground arith
find_run-delete_by_ids id ids (r ∷ rs) = ground (
  arith,
  find_run-delete_by_ids id ids rs,
  eq_of-≐ r.run_id id,
  ap (λ z. contains z ids) {x = r.run_id} {y = id},
)
