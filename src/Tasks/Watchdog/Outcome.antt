-- ===== src/Tasks/Watchdog/Outcome.antt =====
-- Which runs `detect_abandoned_task_runs` interrupts.
use remote_connect_backend.Base.{
  ℕ, ◌≡◌, ◌∙◌, ap, Bool, true, false, not, ◌&&◌, Option, some, is_some, List, arith, All,
  Option-cases, inl, inr,
}
use remote_connect_backend.Base.Text.{Text, contains}
use remote_connect_backend.Base.Action.{ok}
use remote_connect_backend.Redis.{Redis}
use remote_connect_backend.Concurrency.Resources.{Limits}
use remote_connect_backend.Tasks.Runs.{Runs, find_run, get_stale}
use remote_connect_backend.Tasks.Watchdog.{is_self, is_skipped, detect_abandoned_task_runs}
use remote_connect_backend.Tasks.Watchdog.Releases.{Mapped, sweep-returns}
use remote_connect_backend.Tasks.Watchdog.Sweeping.{
  IsHex, Keyed, is_stale, is_some-find_run-get_stale, get_stale-IsHex, chosen, is_interrupted,
  sweep-keeps, sweep-Interrupts,
}

-- The run is queued or running, was made before the cutoff, is not the watchdog's own, and no worker
-- reports it.
unfoldable pub is_abandoned : List Text → Option Text → ℕ → Text → Runs → Bool
is_abandoned live self cutoff id rs =
    is_stale cutoff (find_run id rs) && (not (contains id live) && not (is_self self id))

chosen-is_abandoned :
    (live : List Text) (self : Option Text) (cutoff : ℕ) (id : Text) (rs : Runs)
    → Keyed rs
    → chosen self live id (get_stale cutoff rs) ≡ is_abandoned live self cutoff id rs
unfolding is_abandoned is_skipped
chosen-is_abandoned live self cutoff id rs keyed =
    ground (arith, is_some-find_run-get_stale cutoff id rs keyed)

module _ (redis : Redis) (limits : Limits) where
  open redis use {Server}

  -- A run that is not abandoned stays as it is, whatever the releases do. The ids of the runs differ
  -- and are written as `UUID.hex` writes them.
  pub detect_abandoned_task_runs-keeps :
      (live : List Text) (self : Option Text) (cutoff : ℕ) (now : Text → ℕ) (rs : Runs) (s : Server)
      (id : Text)
      → Keyed rs
      → All IsHex rs
      → is_abandoned live self cutoff id rs ≡ false
      → find_run id
          (detect_abandoned_task_runs redis limits (some live) self cutoff now (rs, s)).1.0
        ≡ find_run id rs
  unfolding detect_abandoned_task_runs
  detect_abandoned_task_runs-keeps live self cutoff now rs s id keyed hex h =
      sweep-keeps redis limits self live now (get_stale cutoff rs) id (rs, s)
        (get_stale-IsHex cutoff rs hex) (chosen-is_abandoned live self cutoff id rs keyed ∙ h)

  is_some-is_abandoned :
      (live : List Text) (self : Option Text) (cutoff : ℕ) (id : Text) (rs : Runs)
      → is_abandoned live self cutoff id rs ≡ true
      → is_some (find_run id rs) ≡ true
  unfolding is_abandoned
  is_some-is_abandoned live self cutoff id rs h = elim (Option-cases (find_run id rs)) [
    | inl nothing ↦ absurd (ground (arith, nothing))
    | inr (r, here) ↦ ap is_some here
  ]

  -- Where each map key holds nothing or a resource with its owner, the watchdog returns and has
  -- interrupted each abandoned run. The ids of the runs differ and are written as `UUID.hex` writes
  -- them.
  pub detect_abandoned_task_runs-is_interrupted :
      (live : List Text) (self : Option Text) (cutoff : ℕ) (now : Text → ℕ) (rs : Runs) (s : Server)
      (id : Text)
      → Keyed rs
      → All IsHex rs
      → Mapped redis limits s
      → is_abandoned live self cutoff id rs ≡ true
      → let x = detect_abandoned_task_runs redis limits (some live) self cutoff now (rs, s) in
        (x.0 ≡ ok tt) × (is_interrupted (find_run id x.1.0) ≡ true)
  unfolding detect_abandoned_task_runs
  detect_abandoned_task_runs-is_interrupted live self cutoff now rs s id keyed hex mapped h =
      let stale_hex = get_stale-IsHex cutoff rs hex in
      let done =
        sweep-returns redis limits self live now (get_stale cutoff rs) (rs, s) stale_hex mapped in
      (
        done,
        sweep-Interrupts redis limits self live now (get_stale cutoff rs) id (rs, s) stale_hex
            (chosen-is_abandoned live self cutoff id rs keyed ∙ h)
            (is_some-is_abandoned live self cutoff id rs h) done,
      )
