-- ===== src/Impersonation/Trail.antt =====
-- That the audit of the impersonation whose session the worker holds is active, and which steps of the
-- service keep that.
pub mod Operations
pub mod Requests
pub mod Events
use remote_connect_backend.Base.{
  ℕ, ◌≡◌, refl, ◌∙◌, sym, subst, ap, Bool, true, false, ◌&&◌, Option, none, some, is_some, List, [],
  ◌∷◌, arith, if◌then◌else◌, Bool-cases, inl, inr, Option-cases, if_cases,
}
use remote_connect_backend.Base.Text.{Text, ◌≐◌, ≐_self, ≐_iff, eq_of-≐}
use remote_connect_backend.Base.Int.{ℤ}
use remote_connect_backend.Base.Action.{
  Exn, timeout_error, Result, Action, ok, raised, ◌>>=◌, ◌>>◌, >>=-preserves,
}
use remote_connect_backend.Redis.{Redis}
use remote_connect_backend.Impersonation.Holder.{
  Holder, no_session, is_id, has_session, end_session, use_session, start_session, start_session_at,
}
use remote_connect_backend.Impersonation.World.{
  AuditFields, starts, ends, Reason, expired, worker_crash_detected, request_error,
  force_ended_by_admin, explicit_logout, World, find_audit, save_audit_entry, on_server, on_holder,
  save_audit, send, drop_session, end_held, tell_gone,
}
use remote_connect_backend.Impersonation.Service.Ending.{without, end_held-free}
use remote_connect_backend.Impersonation.Audits.{
  is_active, save_audit_entry-starts, save_audit_entry-other,
}

-- The worker holds a session exactly where it has an id for it, and the audit of that id is active.
pub record IsAudited {Server : Type 0} (w : World Server) : Type 0 where
  pub audited :
      (id : Text)
      → is_id id w.holder.impersonation_id ≡ true
      → is_active (find_audit id w.audits) ≡ true
  pub named : is_some w.holder.impersonation_session ≡ is_some w.holder.impersonation_id

module _ {S : Type 0} where
  abbrev pub Keeps : {A : Type 0} → Action (World S) A → Type 0
  Keeps m = (w : World S) → IsAudited w → IsAudited (m w).1

  pub >>=-Keeps :
      {A B : Type 0} (m : Action (World S) A) (f : A → Action (World S) B)
      → Keeps m
      → ((a : A) → Keeps (f a))
      → Keeps (m >>= f)
  >>=-Keeps m f first second w v =
      >>=-preserves IsAudited m f w (first w v) (λ a _. second a (m w).1 (first w v))

  pub if-IsAudited :
      {A : Type 0} (b : Bool) (x y : Result A × World S)
      → IsAudited x.1
      → IsAudited y.1
      → IsAudited (if b then x else y).1
  if-IsAudited true x y first second = first
  if-IsAudited false x y first second = second

  pub on_server-Keeps : {A : Type 0} (m : Action S A) → Keeps (on_server m)
  on_server-Keeps m w v = record { audited = v.audited; named = v.named }

  pub tell_gone-Keeps : (reason : Reason) (id : Text) → Keeps (tell_gone reason id)
  tell_gone-Keeps explicit_logout id w v = v
  tell_gone-Keeps expired id w v = record { audited = v.audited; named = v.named }
  tell_gone-Keeps worker_crash_detected id w v = record { audited = v.audited; named = v.named }
  tell_gone-Keeps request_error id w v = record { audited = v.audited; named = v.named }
  tell_gone-Keeps force_ended_by_admin id w v = record { audited = v.audited; named = v.named }

  pub drop_session-Keeps : Keeps drop_session
  unfolding end_session
  drop_session-Keeps w v = record { audited = λ id h. cc; named = refl }

  -- The session's own records do not matter.
  pub use_session-Keeps : (free : Bool) (id : Text) → Keeps (on_holder (use_session free id))
  unfolding use_session
  use_session-Keeps true id w v = record { audited = v.audited; named = v.named }
  use_session-Keeps false id w v = record { audited = v.audited; named = v.named }

  -- An entry of an id that the worker does not hold.
  pub save_audit-Keeps :
      (id : Text) (fields : AuditFields) (w : World S)
      → IsAudited w
      → is_id id w.holder.impersonation_id ≡ false
      → IsAudited (save_audit id fields w).1
  save_audit-Keeps id fields w v not_held = record {
    audited = λ j h. elim (Bool-cases (id ≐ j)) [
      | inl same ↦ absurd (ground (arith, eq_of-≐ id j, not_held, h))
      | inr other ↦ ap is_active (save_audit_entry-other id j fields w.audits other) ∙ v.audited j h
    ];
    named = v.named;
  }

  unheld :
      (id : Text) (w : World S)
      → IsAudited w
      → has_session id w.holder ≡ false
      → is_id id w.holder.impersonation_id ≡ false
  unfolding has_session
  unheld id w v not_held = elim (Option-cases w.holder.impersonation_session) [
    | inl gone ↦ elim (Option-cases w.holder.impersonation_id) [
      | inl no_id ↦ ground (arith, no_id)
      | inr (held, there) ↦ absurd (ground (arith, v.named, gone, there))
    ]
    | inr (s, there) ↦ ground (arith, there, not_held)
  ]

  without-is_id :
      (id : Text) (w : World S)
      → IsAudited w
      → is_id id (without id w.holder).impersonation_id ≡ false
  without-is_id id w v = elim (Bool-cases (has_session id w.holder)) [
    | inl held ↦ ground (arith, held)
    | inr not_held ↦ ground (arith, not_held, unheld id w v not_held)
  ]

  without-IsAudited :
      (id : Text) (w : World S)
      → IsAudited w
      → IsAudited (record w { holder = without id w.holder })
  unfolding end_session
  without-IsAudited id w v = elim (Bool-cases (has_session id w.holder)) [
    | inl held ↦
        subst (λ h. IsAudited (record w { holder = if h then no_session else w.holder })) (sym held)
          (drop_session-Keeps w v)
    | inr not_held ↦
        subst (λ h. IsAudited (record w { holder = if h then no_session else w.holder }))
          (sym not_held) v
  ]

  -- After the session is ended, the worker does not hold it; where it is busy, nothing changes.
  abbrev pub Unheld : Text → Result (Unit {0}) × World S → Type 0
  Unheld id x = IsAudited x.1 × (x.0 ≡ ok tt → is_id id x.1.holder.impersonation_id ≡ false)

  end_held-busy :
      (id : Text) (w : World S)
      → end_held false id w
        ≡ (if has_session id w.holder then (raised timeout_error, w) else (ok tt, w))
  unfolding use_session
  end_held-busy id w = refl

  pub end_held-Unheld :
      (free : Bool) (id : Text) (w : World S) → IsAudited w → Unheld id (end_held free id w)
  end_held-Unheld true id w v =
      subst (Unheld id) (sym (end_held-free id w))
        (without-IsAudited id w v, λ _. without-is_id id w v)
  end_held-Unheld false id w v = subst (Unheld id) (sym (end_held-busy id w)) (
      if_cases (Unheld id) (has_session id w.holder) (raised timeout_error, w) (ok tt, w)
        (λ _. (v, λ h. cc)) (λ not_held. (v, λ _. unheld id w v not_held)))
