-- ===== src/Impersonation/Service/Ending.antt =====
-- What the end of an impersonation leaves.
use remote_connect_backend.Base.{
  ℕ, ◌≡◌, refl, ◌∙◌, ap, true, false, none, some, List, [], ◌∷◌, ◌++◌, arith, if◌then◌else◌,
  Bool-cases, inl, inr, Option-cases,
}
use remote_connect_backend.Base.Text.{Text, ≐_self}
use remote_connect_backend.Base.Action.{Action, ok, ◌>>=◌, ◌>>◌, >>=-ok}
use remote_connect_backend.Redis.{Redis}
use remote_connect_backend.Impersonation.Lock.{
  active_key, lease_key, ActiveImpersonation, dumped, release_impersonation,
}
use remote_connect_backend.Impersonation.Holder.{
  Holder, no_session, is_id, has_session, use_session, end_session,
}
use remote_connect_backend.Impersonation.World.{
  Reason, expired, worker_crash_detected, request_error, force_ended_by_admin, explicit_logout,
  ends, Message, state_changed, impersonation_gone, World, find_audit, save_audit_entry, end_held,
  tell_gone, on_server, save_audit, send,
}
use remote_connect_backend.Impersonation.Audits.{is_ended, save_audit_entry-ends}
use remote_connect_backend.Impersonation.Service.{end_impersonation}

abbrev pub told : Reason → Text → List Message → List Message
told explicit_logout id ms = ms ++ state_changed ∷ []
told _ id ms = (ms ++ state_changed ∷ []) ++ impersonation_gone id ∷ []

-- The holder without the session of an impersonation.
abbrev pub without : Text → Holder → Holder
without id h = if has_session id h then no_session else h

has_session-without : (id : Text) (h : Holder) → has_session id (without id h) ≡ false
unfolding has_session
has_session-without id h = elim (Bool-cases (has_session id h)) [
  | inl held ↦ ground (arith, held)
  | inr not_held ↦ ground (arith, not_held)
]

module _ {S : Type 0} where
  pub end_held-free :
      (id : Text) (w : World S)
      → end_held true id w ≡ (ok tt, record w { holder = without id w.holder })
  unfolding has_session use_session end_session
  end_held-free id w = elim (Bool-cases (is_id id w.holder.impersonation_id)) [
    | inr other ↦ ground (arith, other)
    | inl same ↦ elim (Option-cases w.holder.impersonation_session) [
      | inl gone ↦ ground (arith, same, gone)
      | inr (s, there) ↦ ground (arith, same, there)
    ]
  ]

  tell_gone_lem :
      (reason : Reason) (id : Text) (w : World S)
      → tell_gone reason id (record w { messages = w.messages ++ state_changed ∷ [] })
        ≡ (ok tt, record w { messages = told reason id w.messages })
  tell_gone_lem explicit_logout id w = refl
  tell_gone_lem expired id w = refl
  tell_gone_lem worker_crash_detected id w = refl
  tell_gone_lem request_error id w = refl
  tell_gone_lem force_ended_by_admin id w = refl

module _ (redis : Redis) (lease : ℕ) where
  open redis use {Server, get, delete, get-delete}

  release_lem :
      (a : ActiveImpersonation) (s : Server)
      → get s active_key ≡ some (dumped a)
      → release_impersonation redis lease a.impersonation_id s
        ≡ (ok true, delete lease_key (delete active_key s))
  unfolding release_impersonation
  release_lem a s here = ground (arith, here, ≐_self a.impersonation_id)

  pub ended_world : ℕ → ActiveImpersonation → Reason → World Server → World Server
  ended_world now a reason w = record w {
    server = delete lease_key (delete active_key w.server);
    holder = without a.impersonation_id w.holder;
    audits = save_audit_entry a.impersonation_id (ends now reason) w.audits;
    messages = told reason a.impersonation_id w.messages;
  }

  released_part : Reason → Text → Action (World Server) (Unit {0})
  released_part reason id = on_server (release_impersonation redis lease id) >>= λ _.
      (send state_changed >> tell_gone reason id)

  pub end_impersonation-active :
      (now : ℕ) (a : ActiveImpersonation) (reason : Reason) (w : World Server)
      → get w.server active_key ≡ some (dumped a)
      → end_impersonation redis lease true now a reason w ≡ (ok tt, ended_world now a reason w)
  unfolding end_impersonation ended_world released_part
  end_impersonation-active now a reason w here =
      let id = a.impersonation_id in
      let w1 : World Server = record w { holder = without id w.holder } in
      let w2 : World Server = record w1 {
        audits = save_audit_entry id (ends now reason) w.audits;
      } in
      let w3 : World Server = record w2 {
        server = delete lease_key (delete active_key w.server);
      } in
      >>=-ok (end_held true id) (λ _. save_audit id (ends now reason) >> released_part reason id) w
        w1 tt (end_held-free id w)
      ∙ >>=-ok (on_server (release_impersonation redis lease id))
          (λ _. send state_changed >> tell_gone reason id) w2 w3 true
          (ap (λ x. (x.0, record w2 { server = x.1 })) (release_lem a w.server here))
      ∙ tell_gone_lem reason id w3

  -- The impersonation is over: the lock is free, the worker does not hold its session, and its audit,
  -- if there is one, says so.
  pub record IsOver (id : Text) (w : World Server) : Type 0 where
    pub no_active : get w.server active_key ≡ none
    pub no_lease : get w.server lease_key ≡ none
    pub not_held : has_session id w.holder ≡ false
    pub audit_ended : is_ended (find_audit id w.audits) ≡ true

  pub ended_world-IsOver :
      (now : ℕ) (a : ActiveImpersonation) (reason : Reason) (w : World Server)
      → IsOver a.impersonation_id (ended_world now a reason w)
  unfolding ended_world
  ended_world-IsOver now a reason w = record {
    no_active = ground (
      arith,
      get-delete lease_key active_key (delete active_key w.server),
      get-delete active_key active_key w.server,
      ≐_self active_key,
    );
    no_lease =
        ground
          (arith, get-delete lease_key lease_key (delete active_key w.server), ≐_self lease_key);
    not_held = has_session-without a.impersonation_id w.holder;
    audit_ended = save_audit_entry-ends a.impersonation_id now reason w.audits;
  }
