-- ===== src/Impersonation/Trail/Operations.antt =====
-- Every operation of the service keeps the audit of the held impersonation active.
use remote_connect_backend.Base.{
  ℕ, ◌≡◌, refl, ◌∙◌, sym, subst, ap, Bool, true, false, Option, none, some, is_some, List, if_cases,
}
use remote_connect_backend.Base.Text.{Text, eq_of-≐}
use remote_connect_backend.Base.Action.{Action, ok, gets, ◌>>=◌, ◌>>◌, >>=-preserves}
use remote_connect_backend.Redis.{Redis}
use remote_connect_backend.Impersonation.Lock.{
  ActiveImpersonation, release_impersonation, try_claim_impersonation,
}
use remote_connect_backend.Impersonation.Holder.{
  SandboxRecord, Holder, is_id, use_session, end_session, start_session, start_session_at,
}
use remote_connect_backend.Impersonation.World.{
  starts, ends, Reason, World, find_audit, Info, state_changed, on_server, on_holder, save_audit,
  send, end_held, tell_gone,
}
use remote_connect_backend.Impersonation.Audits.{is_active, save_audit_entry-starts}
use remote_connect_backend.Impersonation.Service.{
  get_active, stale_beside, end_impersonation, build_impersonation_info, is_session_stale, end_if,
  cleanup_stale_session, end_replaced, start_claimed, start_as,
}
use remote_connect_backend.Impersonation.Trail.{
  IsAudited, Keeps, >>=-Keeps, on_server-Keeps, tell_gone-Keeps, drop_session-Keeps,
  use_session-Keeps, save_audit-Keeps, end_held-Unheld,
}

module _ (redis : Redis) (lease : ℕ) where
  open redis use {Server}

  send_both-Keeps :
      (reason : Reason) (id : Text) → Keeps {S = Server} (send state_changed >> tell_gone reason id)
  send_both-Keeps reason id w v =
      tell_gone-Keeps reason id (send state_changed w).1
        (record { audited = v.audited; named = v.named })

  pub end_impersonation-Keeps :
      (free : Bool) (now : ℕ) (a : ActiveImpersonation) (reason : Reason)
      → Keeps (end_impersonation redis lease free now a reason)
  unfolding end_impersonation
  end_impersonation-Keeps free now a reason w v =
      let id = a.impersonation_id in
      let first = end_held-Unheld free id w v in
      >>=-preserves IsAudited (end_held free id)
        (λ _.
          save_audit id (ends now reason)
          >> (on_server (release_impersonation redis lease id) >>= λ _.
              (send state_changed >> tell_gone reason id)))
        w first.0
        λ _ done.
          >>=-Keeps (on_server (release_impersonation redis lease id))
            (λ _. send state_changed >> tell_gone reason id)
            (on_server-Keeps (release_impersonation redis lease id))
            (λ _. send_both-Keeps reason id)
            (save_audit id (ends now reason) (end_held free id w).1).1
            (save_audit-Keeps id (ends now reason) (end_held free id w).1 first.0 (first.1 done))

  end_if-Keeps : (stale : Bool) → Keeps {S = Server} (end_if redis lease stale)
  end_if-Keeps true w v = drop_session-Keeps w v
  end_if-Keeps false w v = v

  is_session_stale-Keeps : (held : Option Text) → Keeps (is_session_stale redis lease held)
  unfolding is_session_stale
  is_session_stale-Keeps none w v = v
  is_session_stale-Keeps (some id) w v =
      >>=-preserves IsAudited (get_active redis lease)
        (λ a. gets (λ u. stale_beside redis lease id a u.server)) w v (λ a _. v)

  pub cleanup-Keeps : (free : Bool) → Keeps (cleanup_stale_session redis lease free)
  unfolding cleanup_stale_session
  cleanup-Keeps false w v = v
  cleanup-Keeps true w v =
      if_cases (λ x. IsAudited x.1) (is_some w.holder.impersonation_session)
        ((is_session_stale redis lease w.holder.impersonation_id >>= end_if redis lease) w)
        (ok false, w)
        (λ _.
          >>=-Keeps (is_session_stale redis lease w.holder.impersonation_id) (end_if redis lease)
            (is_session_stale-Keeps w.holder.impersonation_id) end_if-Keeps w v)
        (λ _. v)

  -- After the claim: the new id is held only with its audit.
  opened_world-IsAudited :
      (now : ℕ) (a : ActiveImpersonation) (h : Holder) (w : World Server)
      → h.impersonation_id ≡ some a.impersonation_id
      → is_some h.impersonation_session ≡ true
      → IsAudited
          (save_audit a.impersonation_id
            (starts a.admin_user_id a.target_user_id now)
            (record w { holder = h })).1
  opened_world-IsAudited now a h w named held_now = record {
    audited = λ j held.
        subst
          (λ k.
            is_active (
              find_audit k
                (save_audit a.impersonation_id (starts a.admin_user_id a.target_user_id now)
                  w).1.audits)
            ≡ true)
          (eq_of-≐ a.impersonation_id j (ap (is_id j) (sym named) ∙ held))
          (save_audit_entry-starts a.impersonation_id a.admin_user_id a.target_user_id now
            w.audits);
    named = held_now ∙ ap is_some (sym named);
  }

  opened-Keeps :
      {A : Type 0} (now : ℕ) (a : ActiveImpersonation) (rest : Action (World Server) A)
      → Keeps rest
      → (s : Option (List SandboxRecord)) (w : World Server) → IsAudited w
      → let m : Action (World Server) (Unit {0}) =
          λ v. on_holder (start_session_at now a.impersonation_id v.sandbox s) v in
        IsAudited
          ((m
              >> (save_audit a.impersonation_id (starts a.admin_user_id a.target_user_id now)
                  >> rest))
            w).1
  opened-Keeps now a rest keeps (some s) w v = record { audited = v.audited; named = v.named }
  opened-Keeps now a rest keeps none w v =
      let h : Holder = record {
        impersonation_session = some w.sandbox;
        impersonation_id = some a.impersonation_id;
        started_at = some now;
      } in
      keeps
        (save_audit a.impersonation_id (starts a.admin_user_id a.target_user_id now)
          (record w { holder = h })).1
        (opened_world-IsAudited now a h w refl refl)

  end_replaced-Keeps :
      (now : ℕ) (o : Option ActiveImpersonation) → Keeps (end_replaced redis lease now o)
  unfolding end_session
  end_replaced-Keeps now none w v = v
  end_replaced-Keeps now (some r) w v = record { audited = λ j h. cc; named = refl }

  start_claimed-Keeps :
      (free : Bool) (now : ℕ) (a : ActiveImpersonation) (claim : Bool × Option ActiveImpersonation)
      → Keeps (start_claimed redis lease free now a claim)
  unfolding start_claimed start_session
  start_claimed-Keeps free now a (false, o) w v = v
  start_claimed-Keeps free now a (true, o) w v =
      let id = a.impersonation_id in
      let rest : Action (World Server) (Info × Bool) = on_holder (use_session free id) >>= λ x.
      gets (λ w. (build_impersonation_info redis lease now a x.0 x.1 w, is_some o)) in
      >>=-Keeps (end_replaced redis lease now o)
        (λ _.
          (λ w. on_holder (start_session now id w.sandbox) w)
          >> (save_audit id (starts a.admin_user_id a.target_user_id now) >> rest))
        (end_replaced-Keeps now o)
        (λ _ w v.
          opened-Keeps now a rest
            (>>=-Keeps (on_holder (use_session free id))
              (λ x. gets (λ w. (build_impersonation_info redis lease now a x.0 x.1 w, is_some o)))
              (use_session-Keeps free id) (λ x u k. k))
            w.holder.impersonation_session w v)
        w v

  pub start_as-Keeps :
      (cleanup_free free : Bool) (now : ℕ) (a : ActiveImpersonation)
      → Keeps (start_as redis lease cleanup_free free now a)
  unfolding start_as
  start_as-Keeps cleanup_free free now a =
      >>=-Keeps (cleanup_stale_session redis lease cleanup_free)
        (λ _.
          on_server (try_claim_impersonation redis lease a)
          >>= start_claimed redis lease free now a)
        (cleanup-Keeps cleanup_free)
        λ _.
          >>=-Keeps (on_server (try_claim_impersonation redis lease a))
            (start_claimed redis lease free now a)
            (on_server-Keeps (try_claim_impersonation redis lease a))
            (start_claimed-Keeps free now a)
