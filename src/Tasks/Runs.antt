-- ===== src/Tasks/Runs.antt =====
-- apps/app/modules/task/entities/task_run_entity.py and
-- apps/app/modules/task/repositories/task_run_repository.py. The table is the list of its rows. A
-- time is a number, and an operation that reads the clock takes it as an argument.
pub mod Queries
use remote_connect_backend.Base.{
  ℕ, ◌+◌, Bool, true, false, not, ◌&&◌, ◌||◌, Option, none, some, is_some, List, [], ◌∷◌, ◌++◌,
  length, if◌then◌else◌, ltb, leb, ◌==◌,
}
use remote_connect_backend.Base.Text.{Text, ◌≐◌, contains}
use remote_connect_backend.Base.Action.{Action, ok, raised, value_error}

-- `TaskRunStatusEnum`
pub data Status : Type 0 where
  queued running success failed interrupted : Status

-- `TaskRunLogRetentionStatusEnum`
pub data Retention : Type 0 where
  local archived purged : Retention

-- The id is the 32 lower case hex digits of the UUID.
pub record TaskRun : Type 0 where
  pub run_id : Text
  pub task_name : Text
  pub tag : Option Text
  pub name : Option Text
  pub status : Status
  pub is_retry : Bool
  pub created_at : ℕ
  pub started_at : Option ℕ
  pub finished_at : Option ℕ
  pub error : Option Text
  pub log_s3_bucket : Option Text
  pub log_s3_path : Option Text
  pub log_s3_url : Option Text
  pub log_retention_status : Retention

abbrev pub Runs : Type 0
Runs = List TaskRun

abbrev pub is_queued : Status → Bool
is_queued queued = true
is_queued _ = false

-- `status in [QUEUED, RUNNING]`
abbrev pub is_open : Status → Bool
is_open queued = true
is_open running = true
is_open _ = false

-- `UUID(text).hex`: dashes are skipped, and 32 hex digits are left, or `ValueError` is raised. The
-- other spellings that `UUID` reads, in braces or with a prefix, are no task ids.
abbrev hex_digit : ℕ → Option ℕ
hex_digit c =
    if leb 48 c && leb c 57 || leb 97 c && leb c 102
    then some c
    else if leb 65 c && leb c 70
    then some (c + 32)
    else none

hex_digits : Text → Option Text
hex_digits [] = some []
hex_digits (c ∷ cs) =
    let rest = hex_digits cs in
    if c == 45 then rest else elim (hex_digit c) [
      | none ↦ none
      | some d ↦ elim rest [ none ↦ none | some ds ↦ some (d ∷ ds) ]
    ]

abbrev of_length : Option Text → Option Text
of_length none = none
of_length (some ds) = if length ds == 32 then some ds else none

unfoldable pub to_uuid : Text → Option Text
unfolding hex_digits
to_uuid text = of_length (hex_digits text)

-- `get_by_id`
unfoldable pub find_run : Text → Runs → Option TaskRun
find_run id [] = none
find_run id (r ∷ rs) = if r.run_id ≐ id then some r else find_run id rs

-- A changed row, written back.
unfoldable pub change_run : (TaskRun → TaskRun) → Text → Runs → Runs
change_run f id [] = []
change_run f id (r ∷ rs) = if r.run_id ≐ id then f r ∷ rs else r ∷ change_run f id rs

-- What the table is asked to insert.
pub record NewRun : Type 0 where
  pub new_task_name : Text
  pub new_tag : Option Text
  pub new_name : Option Text

-- The row of `create_task_run`, with the defaults of the columns.
unfoldable pub queued_run : ℕ → Text → NewRun → TaskRun
queued_run now id new = record {
  run_id = id;
  task_name = new.new_task_name;
  tag = new.new_tag;
  name = new.new_name;
  status = queued;
  is_retry = false;
  created_at = now;
  started_at = none;
  finished_at = none;
  error = none;
  log_s3_bucket = none;
  log_s3_path = none;
  log_s3_url = none;
  log_retention_status = local;
}

abbrev pub with_status : Status → Option ℕ → Option ℕ → Bool → Option Text → TaskRun → TaskRun
with_status status' started finished retry error' r = record {
  run_id = r.run_id;
  task_name = r.task_name;
  tag = r.tag;
  name = r.name;
  status = status';
  is_retry = retry;
  created_at = r.created_at;
  started_at = started;
  finished_at = finished;
  error = error';
  log_s3_bucket = r.log_s3_bucket;
  log_s3_path = r.log_s3_path;
  log_s3_url = r.log_s3_url;
  log_retention_status = r.log_retention_status;
}

-- The assignments of `mark_running`, and those of the conflict branch of `try_start`.
unfoldable pub set_running : ℕ → Bool → TaskRun → TaskRun
set_running now retry r = with_status running (some now) r.finished_at retry none r

abbrev or_now : ℕ → Option ℕ → Option ℕ
or_now now none = some now
or_now now (some t) = some t

-- The assignments of `mark_success`, `mark_failed` and `mark_interrupted`.
unfoldable pub set_ended : Status → ℕ → Option Text → TaskRun → TaskRun
set_ended status' now error' r =
    with_status status' (or_now now r.started_at) (some now) r.is_retry error' r

unfoldable pub set_archived : Text → Text → Text → TaskRun → TaskRun
set_archived bucket path url r = record {
  run_id = r.run_id;
  task_name = r.task_name;
  tag = r.tag;
  name = r.name;
  status = r.status;
  is_retry = r.is_retry;
  created_at = r.created_at;
  started_at = r.started_at;
  finished_at = r.finished_at;
  error = r.error;
  log_s3_bucket = some bucket;
  log_s3_path = some path;
  log_s3_url = some url;
  log_retention_status = archived;
}

-- `self._to_uuid(task_id)`, then the statement.
abbrev pub at_uuid : {A : Type 0} → Option Text → (Text → Action Runs A) → Action Runs A
at_uuid none k rs = (raised value_error, rs)
at_uuid (some id) k rs = k id rs

-- `ON CONFLICT DO NOTHING`
unfoldable pub insert_queued : ℕ → NewRun → Text → Runs → Runs
insert_queued now new id rs =
    if is_some (find_run id rs) then rs else rs ++ queued_run now id new ∷ []

unfoldable pub create_task_run : ℕ → Text → NewRun → Action Runs (Option TaskRun)
create_task_run now task_id new =
    at_uuid (to_uuid task_id)
      λ id rs. let rs' = insert_queued now new id rs in (ok (find_run id rs'), rs')

-- Where there is no row nothing is written, and `None` is returned.
unfoldable pub mark : (TaskRun → TaskRun) → Text → Action Runs (Option TaskRun)
mark f task_id =
    at_uuid (to_uuid task_id) λ id rs. let rs' = change_run f id rs in (ok (find_run id rs'), rs')

unfoldable pub mark_running : ℕ → Bool → Text → Action Runs (Option TaskRun)
mark_running now retry = mark (set_running now retry)

unfoldable pub mark_success : ℕ → Text → Action Runs (Option TaskRun)
mark_success now = mark (set_ended success now none)

unfoldable pub mark_failed : ℕ → Option Text → Text → Action Runs (Option TaskRun)
mark_failed now error' = mark (set_ended failed now error')

unfoldable pub mark_interrupted : ℕ → Option Text → Text → Action Runs (Option TaskRun)
mark_interrupted now reason = mark (set_ended interrupted now reason)

unfoldable pub set_log_archived : Text → Text → Text → Text → Action Runs (Unit {0})
set_log_archived bucket path url task_id =
    at_uuid (to_uuid task_id) λ id rs. (ok tt, change_run (set_archived bucket path url) id rs)

-- The upsert of `try_start`: whether it returned a row.
abbrev pub upsert : ℕ → NewRun → Bool → Text → Option TaskRun → Action Runs Bool
upsert now new retry id none rs =
    (ok true, rs ++ set_running now retry (queued_run now id new) ∷ [])
upsert now new retry id (some r) rs =
    if is_queued r.status
    then (ok true, change_run (set_running now retry) id rs)
    else (ok false, rs)

unfoldable pub try_start : ℕ → Text → NewRun → Bool → Action Runs Bool
try_start now task_id new retry =
    at_uuid (to_uuid task_id) λ id rs. upsert now new retry id (find_run id rs) rs

-- `get_stale_queued_or_running`
unfoldable pub get_stale : ℕ → Runs → Runs
get_stale cutoff [] = []
get_stale cutoff (r ∷ rs) =
    let rest = get_stale cutoff rs in
    if is_open r.status && ltb r.created_at cutoff then r ∷ rest else rest

-- `delete_by_ids`, for ids that are UUIDs: the rows that are left.
unfoldable pub delete_by_ids : List Text → Runs → Runs
delete_by_ids ids [] = []
delete_by_ids ids (r ∷ rs) =
    let rest = delete_by_ids ids rs in if contains r.run_id ids then rest else r ∷ rest
