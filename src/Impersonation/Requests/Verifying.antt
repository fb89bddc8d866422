-- ===== src/Impersonation/Requests/Verifying.antt =====
-- Who may go on with an impersonation, and what becomes of one that is lost.
use remote_connect_backend.Base.{
  ℕ, ◌≡◌, ◌⊎◌, ◌∙◌, sym, subst, ap, Bool, true, false, not, ◌&&◌, some, is_some, arith,
  if◌then◌else◌, Bool-cases, inl, inr, ◌==◌,
}
use remote_connect_backend.Base.Text.{Text, ◌≐◌}
use remote_connect_backend.Base.Action.{Result, http, ok, raised, raise, >>=-ok, >>=-raised}
use remote_connect_backend.Redis.{Redis}
use remote_connect_backend.Impersonation.Lock.{
  active_key, lease_key, heartbeat, ActiveImpersonation, dumped, is_expired,
  get_active_impersonation, check_and_refresh_worker_heartbeat,
}
use remote_connect_backend.Impersonation.World.{Reason, expired, worker_crash_detected, World}
use remote_connect_backend.Impersonation.Service.{end_impersonation}
use remote_connect_backend.Impersonation.Service.Ending.{
  ended_world, end_impersonation-active, IsOver, ended_world-IsOver,
}
use remote_connect_backend.Impersonation.Requests.{
  owned, check_ownership, end_expired, handle_session_vanished, verified, verify_impersonation,
}

module _ (redis : Redis) (lease : ℕ) where
  open redis use {Server, get, set_ex, delete, get-delete}

  pub check_ownership-active :
      (id : Text) (admin : ℕ) (a : ActiveImpersonation) (w : World Server)
      → get w.server active_key ≡ some (dumped a)
      → check_ownership redis lease id admin w ≡ owned redis lease id admin (some a) w
  unfolding check_ownership get_active_impersonation
  check_ownership-active id admin a w here = ground (arith, here)

  ended_as :
      Reason → ℕ → ActiveImpersonation → World Server → Result ActiveImpersonation × World Server
  ended_as reason now a w = (raised (http 410), ended_world redis lease now a reason w)

  end_expired-active :
      (now : ℕ) (a : ActiveImpersonation) (w : World Server)
      → get w.server active_key ≡ some (dumped a)
      → end_expired redis lease true now a w ≡ ended_as expired now a w
  unfolding end_expired ended_as
  end_expired-active now a w here =
      >>=-ok (end_impersonation redis lease true now a expired) (λ _. raise (http 410)) w
        (ended_world redis lease now a expired w) tt
        (end_impersonation-active redis lease now a expired w here)

  vanished-active :
      (now : ℕ) (a : ActiveImpersonation) (w : World Server)
      → get w.server active_key ≡ some (dumped a)
      → handle_session_vanished redis lease true now a w ≡ ended_as worker_crash_detected now a w
  unfolding handle_session_vanished ended_as
  vanished-active now a w here =
      >>=-ok (end_impersonation redis lease true now a worker_crash_detected)
        (λ _. raise (http 410)) w (ended_world redis lease now a worker_crash_detected w) tt
        (end_impersonation-active redis lease now a worker_crash_detected w here)

  with_heartbeat : World Server → World Server
  with_heartbeat w = record w { server = set_ex lease_key heartbeat lease w.server }

  abbrev pub lives : ℕ → ActiveImpersonation → World Server → Bool
  lives now a w = not (is_expired now a) && is_some (get w.server lease_key)

  verified-active :
      (now : ℕ) (a : ActiveImpersonation) (w : World Server)
      → get w.server active_key ≡ some (dumped a)
      → verified redis lease true now a w ≡ (
          if is_expired now a
          then ended_as expired now a w
          else if is_some (get w.server lease_key)
          then (ok a, with_heartbeat w)
          else ended_as worker_crash_detected now a w)
  unfolding check_and_refresh_worker_heartbeat with_heartbeat
  verified-active now a w here =
      ground (arith, end_expired-active now a w here, vanished-active now a w here)

  -- Whether the impersonation has the id and was started by the admin.
  abbrev pub owns : Text → ℕ → ActiveImpersonation → Bool
  owns id admin a = (a.impersonation_id ≐ id) && (a.admin_user_id == admin)

  verify-checked :
      (now : ℕ) (id : Text) (admin : ℕ) (a : ActiveImpersonation) (w : World Server)
      → get w.server active_key ≡ some (dumped a)
      → owns id admin a ≡ true
      → verify_impersonation redis lease true now id admin w ≡ verified redis lease true now a w
  unfolding verify_impersonation
  verify-checked now id admin a w here own =
      >>=-ok (check_ownership redis lease id admin) (verified redis lease true now) w w a
        (check_ownership-active id admin a w here ∙ ground (arith, own))

  verify-refused :
      (now : ℕ) (id : Text) (admin : ℕ) (a : ActiveImpersonation) (w : World Server)
      → get w.server active_key ≡ some (dumped a)
      → owns id admin a ≡ false
      → verify_impersonation redis lease true now id admin w
        ≡ (raised (http (if a.impersonation_id ≐ id then 403 else 404)), w)
  unfolding verify_impersonation
  verify-refused now id admin a w here other =
      >>=-raised (check_ownership redis lease id admin) (verified redis lease true now) w w
        (http (if a.impersonation_id ≐ id then 403 else 404))
        (check_ownership-active id admin a w here ∙ ground (arith, other))

  lost :
      (now : ℕ) (id : Text) (admin : ℕ) (a : ActiveImpersonation) (w : World Server)
      → owns id admin a ≡ true
      → (reason : Reason)
      → verify_impersonation redis lease true now id admin w ≡ ended_as reason now a w
      → lives now a w ≡ false
      → let x = verify_impersonation redis lease true now id admin w in
        (owns id admin a ≡ true)
        × (lives now a w ≡ false)
        × (x.0 ≡ raised (http 410))
        × IsOver redis lease a.impersonation_id x.1
  unfolding ended_as
  lost now id admin a w own reason e dead = (
    own,
    dead,
    ap (λ x. x.0) e,
    subst (λ x. IsOver redis lease a.impersonation_id x.1) (sym e)
        (ended_world-IsOver redis lease now a reason w),
  )

  -- While an impersonation is in the lock and the session of the worker is free: a request with another
  -- id or of another admin is refused and changes nothing. One of its own is let through where the
  -- impersonation is not expired and its lease runs, and renews the lease. Else the request is
  -- answered by 410, and the impersonation is over.
  pub verify_impersonation-cases :
      (now : ℕ) (id : Text) (admin : ℕ) (a : ActiveImpersonation) (w : World Server)
      → get w.server active_key ≡ some (dumped a)
      → let x = verify_impersonation redis lease true now id admin w in
        ((owns id admin a ≡ false)
          × (x ≡ (raised (http (if a.impersonation_id ≐ id then 403 else 404)), w)))
        ⊎ ((owns id admin a ≡ true)
            × (lives now a w ≡ true)
            × (x ≡ (ok a, record w { server = set_ex lease_key heartbeat lease w.server })))
        ⊎ ((owns id admin a ≡ true)
            × (lives now a w ≡ false)
            × (x.0 ≡ raised (http 410))
            × IsOver redis lease a.impersonation_id x.1)
  unfolding ended_as with_heartbeat
  verify_impersonation-cases now id admin a w here = elim (Bool-cases (owns id admin a)) [
    | inr other ↦ inl (other, verify-refused now id admin a w here other)
    | inl own ↦
        let step = verify-checked now id admin a w here own ∙ verified-active now a w here in
        elim (Bool-cases (is_expired now a)) [
          | inl late ↦ inr (
              inr (
                lost now id admin a w own expired (step ∙ ground (arith, late))
                  (ground (arith, late))))
          | inr young ↦ elim (Bool-cases (is_some (get w.server lease_key))) [
            | inl alive ↦
                inr (inl (own, ground (arith, young, alive), step ∙ ground (arith, young, alive)))
            | inr dead ↦ inr (
                inr (
                  lost now id admin a w own worker_crash_detected
                    (step ∙ ground (arith, young, dead)) (ground (arith, dead))))
          ]
        ]
  ]
