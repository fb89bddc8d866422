-- ===== src/Tasks/Watchdog/Sweeping.antt =====
-- Which runs the watchdog interrupts.
use remote_connect_backend.Base.{
  ℕ, ◌≡◌, refl, ◌∙◌, sym, ap, Bool, true, false, not, ◌&&◌, Option, none, some, is_some, List, [],
  ◌∷◌, arith, All, if◌then◌else◌, if_cases, ltb, Bool-cases, Option-cases, inl, inr,
}
use remote_connect_backend.Base.Text.{Text, ◌≐◌, eq_of-≐}
use remote_connect_backend.Base.Action.{
  Result, Action, ok, ◌>>◌, >>-ok, >>-raised, >>-preserves, Result-cases,
}
use remote_connect_backend.Redis.{Redis}
use remote_connect_backend.Concurrency.Resources.{Limits}
use remote_connect_backend.Tasks.Runs.{
  interrupted, TaskRun, Runs, is_open, to_uuid, find_run, change_run, set_ended, mark,
  mark_interrupted, get_stale,
}
use remote_connect_backend.Tasks.Runs.Queries.{mapped, find_run-change_run}
use remote_connect_backend.Tasks.Watchdog.{reason, is_skipped, interrupt, sweep}

-- The id is written as `UUID.hex` writes it.
abbrev pub IsHex : TaskRun → Type 0
IsHex r = to_uuid r.run_id ≡ some r.run_id

-- The primary key: no two rows have the same id.
abbrev pub Keyed : Runs → Type 0
Keyed [] = Unit
Keyed (r ∷ rs) = (find_run r.run_id rs ≡ none) × Keyed rs

-- A row that the query of the watchdog finds.
abbrev pub is_stale : ℕ → Option TaskRun → Bool
is_stale cutoff none = false
is_stale cutoff (some r) = is_open r.status && ltb r.created_at cutoff

pub is_some-find_run-get_stale :
    (cutoff : ℕ) (id : Text) (rs : Runs)
    → Keyed rs
    → is_some (find_run id (get_stale cutoff rs)) ≡ is_stale cutoff (find_run id rs)
unfolding find_run get_stale
is_some-find_run-get_stale cutoff id [] keyed = refl
is_some-find_run-get_stale cutoff id (r ∷ rs) keyed = ground (
  arith,
  is_some-find_run-get_stale cutoff id rs keyed.1,
  keyed.0,
  eq_of-≐ r.run_id id,
  ap (λ z. find_run z rs) {x = r.run_id} {y = id},
)

pub get_stale-IsHex : (cutoff : ℕ) (rs : Runs) → All IsHex rs → All IsHex (get_stale cutoff rs)
unfolding get_stale
get_stale-IsHex cutoff [] hex = hex
get_stale-IsHex cutoff (r ∷ rs) hex =
    if_cases (All IsHex) (is_open r.status && ltb r.created_at cutoff) (r ∷ get_stale cutoff rs)
      (get_stale cutoff rs) (λ _. (hex.0, get_stale-IsHex cutoff rs hex.1))
      (λ _. get_stale-IsHex cutoff rs hex.1)

-- A candidate with the id that is not skipped.
abbrev pub chosen : Option Text → List Text → Text → Runs → Bool
chosen self live id candidates = is_some (find_run id candidates) && not (is_skipped self live id)

abbrev pub is_interrupted : Option TaskRun → Bool
is_interrupted none = false
is_interrupted (some r) = elim r.status [ interrupted ↦ true | _ ↦ false ]

module _ (redis : Redis) (limits : Limits) where
  open redis use {Server}

  -- The table after `interrupt`, for the UUID of the id.
  interrupt-runs :
      (now : Text → ℕ) (id : Text) (x : Runs × Server)
      → to_uuid id ≡ some id
      → (interrupt redis limits now id x).1.0
        ≡ change_run (set_ended interrupted (now id) (some reason)) id x.0
  unfolding interrupt mark_interrupted mark
  interrupt-runs now id x hex = ground (arith, hex)

  find_run-interrupt :
      (now : Text → ℕ) (k id : Text) (x : Runs × Server)
      → to_uuid k ≡ some k
      → find_run id (interrupt redis limits now k x).1.0 ≡ (
          if k ≐ id
          then mapped (set_ended interrupted (now k) (some reason)) (find_run id x.0)
          else find_run id x.0)
  unfolding set_ended
  find_run-interrupt now k id x hex =
      ap (find_run id) (interrupt-runs now k x hex)
      ∙ find_run-change_run (set_ended interrupted (now k) (some reason)) (λ r. refl) k id x.0

  pub sweep-keeps :
      (self : Option Text) (live : List Text) (now : Text → ℕ) (candidates : Runs) (id : Text)
      (x : Runs × Server)
      → All IsHex candidates
      → chosen self live id candidates ≡ false
      → find_run id (sweep redis limits self live now candidates x).1.0 ≡ find_run id x.0
  unfolding sweep find_run
  sweep-keeps self live now [] id x hex h = refl
  sweep-keeps self live now (r ∷ candidates) id x hex h =
      let skipped_same = ap (is_skipped self live) {x = r.run_id} {y = id} in
      let same = eq_of-≐ r.run_id id in
      if_cases (λ (m : Action (Runs × Server) (Unit {0})). find_run id (m x).1.0 ≡ find_run id x.0)
        (is_skipped self live r.run_id) (sweep redis limits self live now candidates)
        (interrupt redis limits now r.run_id >> sweep redis limits self live now candidates)
        (λ skip.
          sweep-keeps self live now candidates id x hex.1
            (ground (arith, h, skip, same, skipped_same)))
        (λ kept.
          let other : (r.run_id ≐ id) ≡ false = ground (arith, h, kept, same, skipped_same) in
          let first : find_run id (interrupt redis limits now r.run_id x).1.0 ≡ find_run id x.0 =
            find_run-interrupt now r.run_id id x hex.0 ∙ ground (arith, other) in
          >>-preserves (λ (y : Runs × Server). find_run id y.0 ≡ find_run id x.0)
            (interrupt redis limits now r.run_id) (sweep redis limits self live now candidates) x
            first
            (λ _.
              sweep-keeps self live now candidates id (interrupt redis limits now r.run_id x).1
                hex.1 (ground (arith, h, other))
              ∙ first))

  interrupt-is_interrupted :
      (now : Text → ℕ) (k id : Text) (x : Runs × Server)
      → to_uuid k ≡ some k
      → is_interrupted (find_run id x.0) ≡ true
      → is_interrupted (find_run id (interrupt redis limits now k x).1.0) ≡ true
  unfolding set_ended
  interrupt-is_interrupted now k id x hex h = elim (Option-cases (find_run id x.0)) [
    | inl nothing ↦ absurd (ground (arith, nothing))
    | inr (r, here) ↦ ground (arith, here, find_run-interrupt now k id x hex, h)
  ]

  interrupt-marks :
      (now : Text → ℕ) (k id : Text) (x : Runs × Server)
      → to_uuid k ≡ some k
      → (k ≐ id) ≡ true
      → is_some (find_run id x.0) ≡ true
      → is_interrupted (find_run id (interrupt redis limits now k x).1.0) ≡ true
  unfolding set_ended
  interrupt-marks now k id x hex here there = elim (Option-cases (find_run id x.0)) [
    | inl nothing ↦ absurd (ground (arith, nothing))
    | inr (r, found) ↦ ground (arith, found, here, find_run-interrupt now k id x hex)
  ]

  sweep-is_interrupted :
      (self : Option Text) (live : List Text) (now : Text → ℕ) (candidates : Runs) (id : Text)
      (x : Runs × Server)
      → All IsHex candidates
      → is_interrupted (find_run id x.0) ≡ true
      → is_interrupted (find_run id (sweep redis limits self live now candidates x).1.0) ≡ true
  unfolding sweep
  sweep-is_interrupted self live now [] id x hex h = h
  sweep-is_interrupted self live now (r ∷ candidates) id x hex h =
      if_cases
        (λ (m : Action (Runs × Server) (Unit {0})). is_interrupted (find_run id (m x).1.0) ≡ true)
        (is_skipped self live r.run_id) (sweep redis limits self live now candidates)
        (interrupt redis limits now r.run_id >> sweep redis limits self live now candidates)
        (λ _. sweep-is_interrupted self live now candidates id x hex.1 h)
        (λ _.
          let first = interrupt-is_interrupted now r.run_id id x hex.0 h in
          >>-preserves (λ (y : Runs × Server). is_interrupted (find_run id y.0) ≡ true)
            (interrupt redis limits now r.run_id) (sweep redis limits self live now candidates) x
            first
            (λ _.
              sweep-is_interrupted self live now candidates id
                (interrupt redis limits now r.run_id x).1 hex.1 first))

  -- What a sweep that returns has interrupted.
  abbrev pub Interrupts : Text → Runs × Server → Action (Runs × Server) (Unit {0}) → Type 0
  Interrupts id x m = (m x).0 ≡ ok tt → is_interrupted (find_run id (m x).1.0) ≡ true

  pub sweep-Interrupts :
      (self : Option Text) (live : List Text) (now : Text → ℕ) (candidates : Runs) (id : Text)
      (x : Runs × Server)
      → All IsHex candidates
      → chosen self live id candidates ≡ true
      → is_some (find_run id x.0) ≡ true
      → Interrupts id x (sweep redis limits self live now candidates)
  unfolding sweep find_run
  sweep-Interrupts self live now [] id x hex h there = λ _. absurd (ground arith)
  sweep-Interrupts self live now (r ∷ candidates) id x hex h there =
      let tail = sweep redis limits self live now candidates in
      let head = interrupt redis limits now r.run_id in
      let skipped_same = ap (is_skipped self live) {x = r.run_id} {y = id} in
      let same = eq_of-≐ r.run_id id in
      if_cases (Interrupts id x) (is_skipped self live r.run_id) tail (head >> tail)
        (λ skip done.
          sweep-Interrupts self live now candidates id x hex.1
            (ground (arith, h, skip, same, skipped_same)) there done)
        (λ kept done. elim (Result-cases (head x).0) [
          | inr (e, stop) ↦ absurd (
              ground (
                arith,
                ap (λ (y : Result (Unit {0}) × (Runs × Server)). y.0)
                    (>>-raised head tail x e stop),
                done,
              ))
          | inl first ↦
              let joined = >>-ok head tail x first in
              let tail_done : (tail (head x).1).0 ≡ ok tt =
                ap (λ (y : Result (Unit {0}) × (Runs × Server)). y.0) (sym joined) ∙ done in
              ap (λ (y : Result (Unit {0}) × (Runs × Server)). is_interrupted (find_run id y.1.0))
                joined
              ∙ elim (Bool-cases (r.run_id ≐ id)) [
                | inl here ↦
                    sweep-is_interrupted self live now candidates id (head x).1 hex.1
                      (interrupt-marks now r.run_id id x hex.0 here there)
                | inr other ↦
                    sweep-Interrupts self live now candidates id (head x).1 hex.1
                      (ground (arith, h, other))
                      (ap is_some (find_run-interrupt now r.run_id id x hex.0)
                        ∙ ground (arith, other, there))
                      tail_done
              ]
        ])
