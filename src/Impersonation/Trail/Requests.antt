-- ===== src/Impersonation/Trail/Requests.antt =====
-- Every request keeps the audit of the held impersonation active.
use remote_connect_backend.Base.{
  ℕ, ◌≡◌, refl, ◌∙◌, is_some, Bool, true, false, Option, none, some, List, if◌then◌else◌, ◌==◌,
}
use remote_connect_backend.Base.Text.{Text, ◌≐◌}
use remote_connect_backend.Base.Int.{ℤ, ◌+ℤ◌}
use remote_connect_backend.Base.Action.{
  Exn, http, timeout_error, session_not_found, Result, Action, ok, raised, raise, ◌>>=◌, ◌>>◌,
}
use remote_connect_backend.Redis.{Redis}
use remote_connect_backend.Impersonation.Lock.{ActiveImpersonation, is_expired, is_worker_alive}
use remote_connect_backend.Impersonation.Holder.{SandboxRecord, use_session}
use remote_connect_backend.Impersonation.World.{
  expired, worker_crash_detected, request_error, World, Info, Summary, set_record, on_holder,
}
use remote_connect_backend.Impersonation.Service.{get_active, summary_of, end_impersonation}
use remote_connect_backend.Impersonation.Requests.{
  owned, check_ownership, end_expired, handle_session_vanished, if_alive, heartbeat_checked,
  verified, verify_impersonation, caught, end_failed, update_handler, adjust_handler, info_handler,
  rewritten, flushed, informed, adjusted, of_admin, status_of,
}
use remote_connect_backend.Impersonation.Trail.{
  IsAudited, if-IsAudited, Keeps, >>=-Keeps, use_session-Keeps,
}
use remote_connect_backend.Impersonation.Trail.Operations.{end_impersonation-Keeps}

module _ (redis : Redis) (lease : ℕ) where
  open redis use {Server}

  caught-after :
      {A : Type 0} (handler : Exn → Action (World Server) A)
      → ((e : Exn) → Keeps (handler e))
      → (x : Result A × World Server) → IsAudited x.1
      → IsAudited
          (elim x.0 as (λ _. Result A × World Server) [
            | ok a ↦ (ok a, x.1)
            | raised e ↦ handler e x.1
          ]).1
  caught-after handler keeps (ok a, w) v = v
  caught-after handler keeps (raised e, w) v = keeps e w v

  caught-Keeps :
      {A : Type 0} (m : Action (World Server) A) (handler : Exn → Action (World Server) A)
      → Keeps m
      → ((e : Exn) → Keeps (handler e))
      → Keeps (caught redis lease m handler)
  caught-Keeps m handler first second w v = caught-after handler second (m w) (first w v)

  owned-Keeps :
      (id : Text) (admin : ℕ) (o : Option ActiveImpersonation)
      → Keeps (owned redis lease id admin o)
  owned-Keeps id admin none w v = v
  owned-Keeps id admin (some a) w v =
      if-IsAudited (a.impersonation_id ≐ id)
        (if a.admin_user_id == admin then (ok a, w) else (raised (http 403), w))
        (raised (http 404), w)
        (if-IsAudited (a.admin_user_id == admin) (ok a, w) (raised (http 403), w) v v) v

  pub check_ownership-Keeps : (id : Text) (admin : ℕ) → Keeps (check_ownership redis lease id admin)
  unfolding check_ownership
  check_ownership-Keeps id admin =
      >>=-Keeps (get_active redis lease) (owned redis lease id admin) (λ w v. v)
        (owned-Keeps id admin)

  -- An end followed by a result or an exception.
  ended-Keeps :
      (A : Type 0) (free : Bool) (now : ℕ) (a : ActiveImpersonation) (e : Exn)
      → (Keeps {A = A} (end_expired redis lease free now a))
        × (Keeps {A = A} (handle_session_vanished redis lease free now a))
        × (Keeps {A = A} (end_failed redis lease free now a e))
  unfolding end_expired handle_session_vanished
  ended-Keeps A free now a e = (
    >>=-Keeps (end_impersonation redis lease free now a expired) (λ _. raise (http 410))
        (end_impersonation-Keeps redis lease free now a expired) (λ _ w v. v),
    >>=-Keeps (end_impersonation redis lease free now a worker_crash_detected)
        (λ _. raise (http 410))
        (end_impersonation-Keeps redis lease free now a worker_crash_detected) (λ _ w v. v),
    >>=-Keeps (end_impersonation redis lease free now a request_error) (λ _. raise e)
        (end_impersonation-Keeps redis lease free now a request_error) (λ _ w v. v),
  )

  heartbeat_checked-Keeps : Keeps (heartbeat_checked redis lease)
  heartbeat_checked-Keeps w v = record { audited = v.audited; named = v.named }

  if_alive-Keeps :
      (free : Bool) (now : ℕ) (a : ActiveImpersonation) (alive : Bool)
      → Keeps (if_alive redis lease free now a alive)
  if_alive-Keeps free now a true w v = v
  if_alive-Keeps free now a false w v =
      (ended-Keeps ActiveImpersonation free now a (http 410)).1 w v

  verified-Keeps :
      (free : Bool) (now : ℕ) (a : ActiveImpersonation) → Keeps (verified redis lease free now a)
  verified-Keeps free now a w v =
      if-IsAudited (is_expired now a) (end_expired redis lease free now a w)
        ((heartbeat_checked redis lease >>= if_alive redis lease free now a) w)
        ((ended-Keeps ActiveImpersonation free now a (http 410)).0 w v)
        (>>=-Keeps (heartbeat_checked redis lease) (if_alive redis lease free now a)
          heartbeat_checked-Keeps (if_alive-Keeps free now a) w v)

  pub verify-Keeps :
      (free : Bool) (now : ℕ) (id : Text) (admin : ℕ)
      → Keeps (verify_impersonation redis lease free now id admin)
  unfolding verify_impersonation
  verify-Keeps free now id admin =
      >>=-Keeps (check_ownership redis lease id admin) (verified redis lease free now)
        (check_ownership-Keeps id admin) (verified-Keeps free now)

  pub update_handler-Keeps :
      (free : Bool) (now : ℕ) (a : ActiveImpersonation) (e : Exn)
      → Keeps (update_handler redis lease free now a e)
  update_handler-Keeps free now a timeout_error w v = v
  update_handler-Keeps free now a session_not_found w v =
      (ended-Keeps Info free now a timeout_error).1 w v
  update_handler-Keeps free now a e w v = (ended-Keeps Info free now a e).2 w v

  pub adjust_handler-Keeps :
      (free : Bool) (now : ℕ) (a : ActiveImpersonation) (e : Exn)
      → Keeps (adjust_handler redis lease free now a e)
  adjust_handler-Keeps free now a timeout_error w v = v
  adjust_handler-Keeps free now a session_not_found w v =
      (ended-Keeps Info free now a timeout_error).1 w v
  adjust_handler-Keeps free now a (http status) w v = v
  adjust_handler-Keeps free now a e w v = (ended-Keeps Info free now a e).2 w v

  pub info_handler-Keeps :
      (free : Bool) (now : ℕ) (a : ActiveImpersonation) (e : Exn)
      → Keeps (info_handler redis lease free now a e)
  info_handler-Keeps free now a timeout_error w v = v
  info_handler-Keeps free now a session_not_found w v =
      (ended-Keeps Info free now a timeout_error).1 w v
  info_handler-Keeps free now a e w v = v

  rewritten-is_some :
      (records : List SandboxRecord) (s : Option (List SandboxRecord))
      → is_some (rewritten redis lease records s) ≡ is_some s
  rewritten-is_some records none = refl
  rewritten-is_some records (some s) = refl

  -- A session whose records are changed is still held by the same id.
  flushed-Keeps :
      (flush : Result (Unit {0})) (records : List SandboxRecord)
      → Keeps (flushed redis lease flush records)
  flushed-Keeps flush records w v = record {
    audited = v.audited;
    named = rewritten-is_some records w.holder.impersonation_session ∙ v.named;
  }

  pub written-Keeps :
      (now : ℕ) (a : ActiveImpersonation) (flush : Result (Unit {0})) (records : List SandboxRecord)
      (started_at : Option ℕ)
      → Keeps (flushed redis lease flush records >> informed redis lease now a records started_at)
  written-Keeps now a flush records started_at =
      >>=-Keeps (flushed redis lease flush records)
        (λ _. informed redis lease now a records started_at) (flushed-Keeps flush records)
        (λ _ w v. v)

  pub adjusted-Keeps :
      (now : ℕ) (a : ActiveImpersonation) (name : Text) (delta : ℤ) (flush : Result (Unit {0}))
      (started_at : Option ℕ) (records : List SandboxRecord) (r : Option SandboxRecord)
      → Keeps (adjusted redis lease now a name delta flush started_at records r)
  adjusted-Keeps now a name delta flush started_at records none w v = v
  adjusted-Keeps now a name delta flush started_at records (some r) w v =
      written-Keeps now a flush (set_record name (r.value +ℤ delta) records) started_at w v

  -- A verified request, with its `try` around a use of the session.
  pub request-Keeps :
      (free : Bool) (now : ℕ) (id : Text) (admin : ℕ)
      (body : ActiveImpersonation → List SandboxRecord × Option ℕ → Action (World Server) Info)
      (handler : ActiveImpersonation → Exn → Action (World Server) Info)
      → ((a : ActiveImpersonation) (x : List SandboxRecord × Option ℕ) → Keeps (body a x))
      → ((a : ActiveImpersonation) (e : Exn) → Keeps (handler a e))
      → Keeps (
          verify_impersonation redis lease free now id admin >>= λ a.
          caught redis lease (on_holder (use_session free id) >>= body a) (handler a))
  request-Keeps free now id admin body handler body_keeps handler_keeps =
      >>=-Keeps (verify_impersonation redis lease free now id admin)
        (λ a. caught redis lease (on_holder (use_session free id) >>= body a) (handler a))
        (verify-Keeps free now id admin)
        λ a.
          caught-Keeps (on_holder (use_session free id) >>= body a) (handler a)
            (>>=-Keeps (on_holder (use_session free id)) (body a) (use_session-Keeps free id)
              (body_keeps a))
            (handler_keeps a)

  pub of_admin-Keeps :
      (admin : ℕ) (o : Option ActiveImpersonation) → Keeps (of_admin redis lease admin o)
  of_admin-Keeps admin none w v = v
  of_admin-Keeps admin (some a) w v =
      if-IsAudited (a.admin_user_id == admin) (ok a, w) (raised (http 404), w) v v

  pub status_of-Keeps :
      (free : Bool) (now : ℕ) (a : ActiveImpersonation) → Keeps (status_of redis lease free now a)
  status_of-Keeps free now a w v =
      if-IsAudited (is_expired now a) (end_expired redis lease free now a w)
        (if is_worker_alive redis lease w.server
          then (ok (summary_of redis lease now a w), w)
          else (raised (http 410), w))
        ((ended-Keeps Summary free now a (http 410)).0 w v)
        (if-IsAudited (is_worker_alive redis lease w.server)
          (ok (summary_of redis lease now a w), w) (raised (http 410), w) v v)
