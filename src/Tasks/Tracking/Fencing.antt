-- ===== src/Tasks/Tracking/Fencing.antt =====
-- A task that is not to be redelivered is executed at most once for each id.
use remote_connect_backend.Base.{
  ℕ, ◌+◌, ◌≤◌, ◌≡◌, ◌⊎◌, refl, ◌∙◌, sym, subst, ap, Bool, true, false, not, ◌&&◌, Option, none,
  some, List, [], ◌∷◌, arith, if◌then◌else◌, Bool-cases, inl, inr,
}
use remote_connect_backend.Base.Text.{Text, ◌≐◌, contains, eq_of-≐}
use remote_connect_backend.Base.Action.{Result, raised, ignore}
use remote_connect_backend.Tasks.Runs.{Runs, NewRun, to_uuid, find_run, at_uuid, upsert, try_start}
use remote_connect_backend.Tasks.Tracking.{
  tracking_try_start, started_or, fenced_start, before_start, Event, enqueued, starts, succeeds,
  fails, abandoned, log_archived, deleted, step,
}
use remote_connect_backend.Tasks.Tracking.Past.{
  past_queued, deletes, step-past_queued, upsert-started, upsert-is_past_queued,
}

-- Whether the task body is run by the event, as the one with the id. That is where `before_start`
-- does not raise `Ignore`; a callback that raises is later than that.
abbrev proceeds : Text → Option Text → Bool × Runs → ℕ
proceeds id none started = 0
proceeds id (some k) (started, rs) = if k ≐ id && started then 1 else 0

executes : Text → Event → Runs → ℕ
executes id (starts false available now task_id new retry on_start) rs =
    proceeds id (to_uuid task_id) (tracking_try_start available now task_id new retry rs)
executes id _ rs = 0

unfoldable pub executions : Text → List Event → Runs → ℕ
unfolding executes
executions id [] rs = 0
executions id (e ∷ es) rs = executes id e rs + executions id es (step e rs)

-- The run is not deleted, and the database answers when the task starts.
abbrev fenced_event : Text → Event → Bool
fenced_event id (deleted ids) = not (contains id ids)
fenced_event id (starts redeliver available now task_id new retry on_start) = available
fenced_event id _ = true

unfoldable pub fenced : Text → List Event → Bool
fenced id [] = true
fenced id (e ∷ es) = fenced_event id e && fenced id es

-- The outcome of `tracking_try_start` where the database answers, for a given UUID.
abbrev started_with : ℕ → NewRun → Bool → Option Text → Runs → Bool × Runs
started_with now new retry uuid rs =
    let (started, rs') = at_uuid uuid (λ k s. upsert now new retry k (find_run k s) s) rs in
    (started_or started, rs')

proceeds-past_queued :
    (id : Text) (now : ℕ) (new : NewRun) (retry : Bool) (on_start : Result (Unit {0}))
    (uuid : Option Text) (rs : Runs)
    → (proceeds id uuid (started_with now new retry uuid rs) ≡ 0)
      ⊎ ((proceeds id uuid (started_with now new retry uuid rs) ≡ 1)
          × (past_queued id rs ≡ false)
          × (past_queued id (fenced_start (started_with now new retry uuid rs) on_start).1 ≡ true))
proceeds-past_queued id now new retry on_start none rs = inl refl
proceeds-past_queued id now new retry on_start (some k) rs = elim (Bool-cases (k ≐ id)) [
  | inr other ↦ inl (ground (arith, other))
  | inl here ↦
      let same : k ≡ id = eq_of-≐ k id here in
      let started = upsert-started now new retry k rs (find_run k rs) refl in
      let after = upsert-is_past_queued now new retry k rs (find_run k rs) refl in
      elim (Bool-cases (past_queued k rs)) [
        | inl past ↦ inl (ground (arith, started, past))
        | inr fresh ↦ inr (
          ground (arith, started, fresh, here),
          ap (λ z. past_queued z rs) (sym same) ∙ fresh,
          ap (λ z. past_queued z (fenced_start (started_with now new retry (some k) rs) on_start).1)
                (sym same)
              ∙ ground (arith, started, fresh, after),
        )
      ]
]

executes-past_queued :
    (id : Text) (e : Event) (rs : Runs)
    → fenced_event id e ≡ true
    → (executes id e rs ≡ 0)
      ⊎ ((executes id e rs ≡ 1) × (past_queued id rs ≡ false) × (past_queued id (step e rs) ≡ true))
unfolding executes step before_start tracking_try_start try_start
executes-past_queued id (starts false true now task_id new retry on_start) rs h =
    proceeds-past_queued id now new retry on_start (to_uuid task_id) rs
executes-past_queued id (starts false false now task_id new retry on_start) rs h =
    absurd (ground arith)
executes-past_queued id (starts true available now task_id new retry on_start) rs h = inl refl
executes-past_queued id (enqueued available now task_id new) rs h = inl refl
executes-past_queued id (succeeds available now task_id) rs h = inl refl
executes-past_queued id (fails available now task_id error) rs h = inl refl
executes-past_queued id (abandoned now task_id reason) rs h = inl refl
executes-past_queued id (log_archived bucket path url task_id) rs h = inl refl
executes-past_queued id (deleted ids) rs h = inl refl

spared : (id : Text) (e : Event) → fenced_event id e ≡ true → deletes id e ≡ false
spared id (starts redeliver available now task_id new retry on_start) h = refl
spared id (enqueued available now task_id new) h = refl
spared id (succeeds available now task_id) h = refl
spared id (fails available now task_id error) h = refl
spared id (abandoned now task_id reason) h = refl
spared id (log_archived bucket path url task_id) h = refl
spared id (deleted ids) h = ground (arith, h)

-- Along any events in which the database answers whenever a task starts and the run is not deleted,
-- the body of a task that is not to be redelivered is run at most once for an id, and never again
-- where its run has left the queue.
pub executions-past_queued :
    (id : Text) (es : List Event) (rs : Runs)
    → fenced id es ≡ true
    → executions id es rs + (if past_queued id rs then 1 else 0) ≤ 1
unfolding executions fenced
executions-past_queued id [] rs h = ground arith
executions-past_queued id (e ∷ es) rs h =
    let now_ok : fenced_event id e ≡ true = ground (arith, h) in
    let later = executions-past_queued id es (step e rs) (ground (arith, h)) in
    let kept = step-past_queued e id rs (spared id e now_ok) in
    elim (executes-past_queued id e rs now_ok) [
      | inl idle ↦ ground (arith, idle, later, kept)
      | inr (once, before, after) ↦ ground (arith, once, before, after, later)
    ]

started_with-past_queued :
    (now : ℕ) (new : NewRun) (retry : Bool) (on_start : Result (Unit {0})) (k : Text) (rs : Runs)
    → let x = fenced_start (started_with now new retry (some k) rs) on_start in
      (x.0 ≡ (if past_queued k rs then raised ignore else on_start)) × (past_queued k x.1 ≡ true)
started_with-past_queued now new retry on_start k rs =
    let started = upsert-started now new retry k rs (find_run k rs) refl in
    let after = upsert-is_past_queued now new retry k rs (find_run k rs) refl in
    elim (Bool-cases (past_queued k rs)) [
      | inl past ↦ (ground (arith, started, past), ground (arith, started, past, after))
      | inr fresh ↦ (ground (arith, started, fresh), ground (arith, started, fresh, after))
    ]

-- Where the database answers and the id is a UUID, a task that is not to be redelivered raises
-- `Ignore` exactly if its run has left the queue, and else goes on to its callback. Its run has left
-- the queue then.
pub before_start-past_queued :
    (now : ℕ) (task_id : Text) (new : NewRun) (retry : Bool) (on_start : Result (Unit {0}))
    (k : Text) (rs : Runs)
    → to_uuid task_id ≡ some k
    → let x = before_start false true now task_id new retry on_start rs in
      (x.0 ≡ (if past_queued k rs then raised ignore else on_start)) × (past_queued k x.1 ≡ true)
unfolding before_start tracking_try_start try_start
before_start-past_queued now task_id new retry on_start k rs e =
    subst
      (λ u.
        let x = fenced_start (started_with now new retry u rs) on_start in
        (x.0 ≡ (if past_queued k rs then raised ignore else on_start)) × (past_queued k x.1 ≡ true))
      (sym e) (started_with-past_queued now new retry on_start k rs)
