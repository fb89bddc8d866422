-- ===== src/Tasks/Watchdog/Releases.antt =====
-- The watchdog's sweep returns where the map keys hold what the code writes under them.
use remote_connect_backend.Base.{
  ℕ, ◌≡◌, ◌⊎◌, refl, ◌∙◌, ap, Bool, true, false, Option, none, some, List, [], ◌∷◌, arith, All,
  if_cases, inl, inr,
}
use remote_connect_backend.Base.Text.{Text}
use remote_connect_backend.Base.Action.{Result, Action, ok, ◌>>◌, >>-ok}
use remote_connect_backend.Redis.{
  Redis, Value, raw, binding, last_enqueued, active, session, user_block,
}
use remote_connect_backend.Concurrency.Keys.{
  MapPrefix, map_key, task_slot_map_prefix, task_lock_map_prefix,
}
use remote_connect_backend.Concurrency.Resources.{
  Limits, release_task_resource_by_id, release_execution_slot, unlock_task_execution,
}
use remote_connect_backend.Concurrency.Resources.Binding.{
  after_release, release_by_id_lem, release_unmapped,
}
use remote_connect_backend.Tasks.Runs.{Runs, to_uuid, mark_interrupted, mark}
use remote_connect_backend.Tasks.Watchdog.{reason, is_skipped, interrupt, sweep}
use remote_connect_backend.Tasks.Watchdog.Sweeping.{IsHex}

abbrev is_mapping : Option Value → Bool
is_mapping none = true
is_mapping (some (binding k t)) = true
is_mapping (some _) = false

mapping_cases :
    (o : Option Value)
    → is_mapping o ≡ true
    → (o ≡ none) ⊎ ((k : Text) × (t : Text) × (o ≡ some (binding k t)))
mapping_cases none h = inl refl
mapping_cases (some (binding k t)) h = inr (k, t, refl)
mapping_cases (some (raw t)) h = absurd (ground arith)
mapping_cases (some (last_enqueued t)) h = absurd (ground arith)
mapping_cases (some (active t a b c d)) h = absurd (ground arith)
mapping_cases (some (session t)) h = absurd (ground arith)
mapping_cases (some (user_block t u)) h = absurd (ground arith)

module _ (redis : Redis) (limits : Limits) where
  open redis use {Server, get}

  -- Under each map key there is nothing, or a resource with its owner.
  abbrev pub Mapped : Server → Type 0
  Mapped s =
      (prefix : MapPrefix) (c : ℕ) (id : Text) → is_mapping (get s (map_key prefix (c ∷ id))) ≡ true

  is_mapping-after_release :
      (key : Text) (s : Server) (j : Text)
      → is_mapping (get s key) ≡ true
      → is_mapping (get s j) ≡ true
      → is_mapping (after_release redis key s j) ≡ true
  is_mapping-after_release key s j here there = elim (mapping_cases (get s key) here) [
    | inl nothing ↦ ground (arith, nothing, there)
    | inr (k, t, bound) ↦ ground (arith, bound, there)
  ]

  Returns : Result (Unit {0}) × Server → Type 0
  Returns x = (x.0 ≡ ok tt) × Mapped x.1

  release-Returns :
      (id : Text) (prefix : MapPrefix) (s : Server)
      → Mapped s
      → Returns (release_task_resource_by_id redis limits (some id) prefix s)
  unfolding release_task_resource_by_id Returns
  release-Returns [] prefix s mapped = (refl, mapped)
  release-Returns (c ∷ id) prefix s mapped =
      let key = map_key prefix (c ∷ id) in
      elim (mapping_cases (get s key) (mapped prefix c id)) [
        | inl nothing ↦
            let (done, same) = release_unmapped redis limits c id prefix s nothing in
            (done, λ p d i. ap is_mapping (same (map_key p (d ∷ i))) ∙ mapped p d i)
        | inr (k, t, bound) ↦
            let (done, now) = release_by_id_lem redis limits c id prefix k t s bound in
            (
              done,
              λ p d i.
                  ap is_mapping (now (map_key p (d ∷ i)))
                  ∙ is_mapping-after_release key s (map_key p (d ∷ i)) (mapped prefix c id)
                      (mapped p d i),
            )
      ]

  releases-Returns :
      (id : Text) (s : Server)
      → Mapped s
      → Returns (
          (release_execution_slot redis limits (some id)
              >> unlock_task_execution redis limits (some id))
            s)
  unfolding Returns release_execution_slot unlock_task_execution
  releases-Returns id s mapped =
      let slot = release_task_resource_by_id redis limits (some id) task_slot_map_prefix in
      let lock = release_task_resource_by_id redis limits (some id) task_lock_map_prefix in
      let (done, mapped') = release-Returns id task_slot_map_prefix s mapped in
      let (done', mapped'') = release-Returns id task_lock_map_prefix (slot s).1 mapped' in
      let joined = >>-ok slot lock s done in
      (
        ap (λ (x : Result (Unit {0}) × Server). x.0) joined ∙ done',
        λ p d i.
            ap (λ (x : Result (Unit {0}) × Server). is_mapping (get x.1 (map_key p (d ∷ i)))) joined
            ∙ mapped'' p d i,
      )

  -- Both releases, and with them the step of the sweep.
  releases : Text → Action Server (Unit {0})
  releases id =
      release_execution_slot redis limits (some id) >> unlock_task_execution redis limits (some id)

  interrupt_lem :
      (now : Text → ℕ) (id : Text) (x : Runs × Server)
      → to_uuid id ≡ some id
      → interrupt redis limits now id x ≡ (
        (releases id x.1).0,
        ((mark_interrupted (now id) (some reason) id x.0).1, (releases id x.1).1),
      )
  unfolding interrupt mark_interrupted mark releases
  interrupt_lem now id x hex = ground (arith, hex)

  -- A sweep that has tidy map keys returns.
  pub sweep-returns :
      (self : Option Text) (live : List Text) (now : Text → ℕ) (candidates : Runs)
      (x : Runs × Server)
      → All IsHex candidates
      → Mapped x.1
      → (sweep redis limits self live now candidates x).0 ≡ ok tt
  unfolding sweep Returns releases
  sweep-returns self live now [] x hex mapped = refl
  sweep-returns self live now (r ∷ candidates) x hex mapped =
      let tail = sweep redis limits self live now candidates in
      let head = interrupt redis limits now r.run_id in
      let (done, mapped') = releases-Returns r.run_id x.1 mapped in
      let step = interrupt_lem now r.run_id x hex.0 in
      let first : (head x).0 ≡ ok tt =
        ap (λ (y : Result (Unit {0}) × (Runs × Server)). y.0) step ∙ done in
      let after : Mapped (head x).1.1 = λ p d i.
        ap (λ (y : Result (Unit {0}) × (Runs × Server)). is_mapping (get y.1.1 (map_key p (d ∷ i))))
          step
        ∙ mapped' p d i in
      if_cases (λ (m : Action (Runs × Server) (Unit {0})). (m x).0 ≡ ok tt)
        (is_skipped self live r.run_id) tail (head >> tail)
        (λ _. sweep-returns self live now candidates x hex.1 mapped)
        (λ _.
          ap (λ (y : Result (Unit {0}) × (Runs × Server)). y.0) (>>-ok head tail x first)
          ∙ sweep-returns self live now candidates (head x).1 hex.1 after)
