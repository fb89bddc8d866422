-- ===== src/Impersonation/Requests/Lifecycle.antt =====
-- An impersonation from its start to its end.
use remote_connect_backend.Base.{
  ℕ, ◌<◌, ◌≡◌, refl, ◌∙◌, sym, subst, ap, true, Option, some, is_some, arith, ==_self,
}
use remote_connect_backend.Base.Text.{Text, ≐_self}
use remote_connect_backend.Base.Action.{ok, pure, ◌>>◌, >>=-ok}
use remote_connect_backend.Redis.{Redis}
use remote_connect_backend.Impersonation.Lock.{active_key, ActiveImpersonation, dumped}
use remote_connect_backend.Impersonation.Lock.Claiming.{
  held, get-held_active, get-held_lease, life-held_active, waited,
}
use remote_connect_backend.Impersonation.Holder.{has_session}
use remote_connect_backend.Impersonation.World.{explicit_logout, World, Info}
use remote_connect_backend.Impersonation.Audits.{save_audit_entry-starts}
use remote_connect_backend.Impersonation.Service.{
  new_impersonation, build_impersonation_info, start_impersonation, end_impersonation,
}
use remote_connect_backend.Impersonation.Service.Starting.{
  Readable, is_free, IsNamed, IsFresh, is_reclaimed, is_reclaimed-after, started_world, IsRunning,
  start_as-free,
}
use remote_connect_backend.Impersonation.Service.Ending.{
  ended_world, end_impersonation-active, IsOver, ended_world-IsOver,
}
use remote_connect_backend.Impersonation.Requests.{check_ownership, logout}
use remote_connect_backend.Impersonation.Requests.Verifying.{check_ownership-active}

module _ (redis : Redis) (lease : ℕ) where
  open redis use {Server, get, wait}

  -- `n` seconds later.
  abbrev pub after : ℕ → World Server → World Server
  after n w = record w { server = wait n w.server }

  pub logout-active :
      (now : ℕ) (a : ActiveImpersonation) (w : World Server)
      → get w.server active_key ≡ some (dumped a)
      → logout redis lease true now a.impersonation_id a.admin_user_id w
        ≡ (ok a.impersonation_id, ended_world redis lease now a explicit_logout w)
  unfolding logout
  logout-active now a w here =
      let id = a.impersonation_id in
      >>=-ok (check_ownership redis lease id a.admin_user_id)
        (λ b. end_impersonation redis lease true now b explicit_logout >> pure id) w w a
        (check_ownership-active redis lease id a.admin_user_id a w here
          ∙ ground (arith, ≐_self id, ==_self a.admin_user_id))
      ∙ >>=-ok (end_impersonation redis lease true now a explicit_logout) (λ _. pure id) w
          (ended_world redis lease now a explicit_logout w) tt
          (end_impersonation-active redis lease now a explicit_logout w here)

  module _ (lease_pos : 0 < lease) (max_duration now : ℕ) (id : Text) (admin target ttl : ℕ)
      (o : Option ActiveImpersonation) (w : World Server)
      (readable : Readable redis lease o w.server) (free : is_free redis lease w.server ≡ true)
      (named : IsNamed w.holder) where
    abbrev pub a : ActiveImpersonation
    a = new_impersonation max_duration now id admin target ttl

    abbrev pub w' : World Server
    w' = started_world redis lease now a o (held redis lease lease_pos a w.server) w

    pub started :
        start_impersonation redis lease true true max_duration now id admin target ttl w
        ≡ (ok (build_impersonation_info redis lease now a w.sandbox (some now) w', is_some o), w')
    unfolding start_impersonation
    started = start_as-free redis lease lease_pos now a o w readable free named

    ttl_pos : 0 < a.ttl_seconds
    ttl_pos = omega arith

    started-IsRunning : IsRunning redis lease a w'
    unfolding started_world has_session
    started-IsRunning = record {
      in_lock = get-held_active redis lease lease_pos a ttl_pos w.server;
      leased = get-held_lease redis lease lease_pos a ttl_pos w.server;
      session_held = ≐_self id;
      audited = save_audit_entry-starts id admin target now _;
    }

    -- Where the lock is free and readable and the worker's session can be taken, a start succeeds. The
    -- lock, the worker's session and the audit are then those of the new impersonation, its session
    -- sees the committed records, and the audit of an impersonation whose worker was gone is ended.
    pub start_impersonation-IsRunning :
        IsFresh redis lease id o
        → let x =
            start_impersonation redis lease true true max_duration now id admin target ttl w in
          (info : Info) × (x.0 ≡ ok (info, is_some o))
          × (info.sandbox_records ≡ w.sandbox)
          × IsRunning redis lease a x.1
          × (is_reclaimed redis lease o x.1.audits ≡ true)
    unfolding build_impersonation_info started_world
    start_impersonation-IsRunning fresh = (
      build_impersonation_info redis lease now a w.sandbox (some now) w',
      ap (λ x. x.0) started,
      refl,
      subst (λ x. IsRunning redis lease a x.1) (sym started) started-IsRunning,
      subst (λ x. is_reclaimed redis lease o x.1.audits ≡ true) (sym started)
          (is_reclaimed-after redis lease now a o w.audits fresh),
    )

    pub locked_later :
        (n : ℕ) → n < a.ttl_seconds → get (after n w').server active_key ≡ some (dumped a)
    unfolding started_world
    locked_later n young =
        waited redis lease lease_pos a ttl_pos w.server n active_key (dumped a) a.ttl_seconds
          (get-held_active redis lease lease_pos a ttl_pos w.server)
          (life-held_active redis lease lease_pos a ttl_pos w.server)
        ∙ ground (arith, young)

    -- Where the lock is free and readable and the worker's session can be taken, an impersonation that
    -- was started is ended by its admin's logout at any time in its life, also when its lease has run
    -- out. Then the lock is free, the worker holds no session of it and its audit is ended.
    pub start_impersonation-logout :
        (n later : ℕ)
        → n < a.ttl_seconds
        → let x =
            start_impersonation redis lease true true max_duration now id admin target ttl w in
          let y = logout redis lease true later id admin (after n x.1) in
          (y.0 ≡ ok id) × IsOver redis lease id y.1
    start_impersonation-logout n later young =
        let e =
          ap (λ x. logout redis lease true later id admin (after n x.1)) started
          ∙ logout-active later a (after n w') (locked_later n young) in
        (
          ap (λ y. y.0) e,
          subst (λ y. IsOver redis lease id y.1) (sym e)
              (ended_world-IsOver redis lease later a explicit_logout (after n w')),
        )
