-- ===== src/Impersonation/Service/Starting.antt =====
-- What a start leaves where the lock is free.
use remote_connect_backend.Base.{
  ℕ, ◌<◌, ◌≡◌, ◌⊎◌, refl, ◌∙◌, ap, Bool, true, false, not, ◌&&◌, Option, none, some, is_some, List,
  arith, inl, inr, Option-cases,
}
use remote_connect_backend.Base.Text.{Text, ◌≐◌, ≐_self}
use remote_connect_backend.Base.Action.{Action, ok, gets, ◌>>=◌, ◌>>◌, >>=-ok}
use remote_connect_backend.Redis.{Redis}
use remote_connect_backend.Impersonation.Lock.{
  active_key, lease_key, heartbeat, ActiveImpersonation, dumped, get_active_impersonation,
  is_worker_alive, try_claim_impersonation,
}
use remote_connect_backend.Impersonation.Lock.Claiming.{held, try_claim-free}
use remote_connect_backend.Impersonation.Holder.{
  SandboxRecord, Holder, no_session, start_session, has_session, use_session, end_session,
}
use remote_connect_backend.Impersonation.World.{
  ImpersonationAudit, starts, ends, worker_crash_detected, World, find_audit, save_audit_entry,
  Info, on_server, on_holder, save_audit,
}
use remote_connect_backend.Impersonation.Service.{
  is_session_stale, cleanup_stale_session, build_impersonation_info, end_replaced, start_claimed,
  start_as, stale_beside,
}
use remote_connect_backend.Impersonation.Audits.{
  is_ended, is_active, save_audit_entry-ends, save_audit_entry-other,
}

-- A held session has an id.
abbrev pub IsNamed : Holder → Type 0
IsNamed h = (h.impersonation_session ≡ none) ⊎ ((id : Text) × (h.impersonation_id ≡ some id))

module _ (redis : Redis) (lease : ℕ) where
  open redis use {Server, get}

  -- Under the active key there is nothing, or an impersonation.
  abbrev pub Readable : Option ActiveImpersonation → Server → Type 0
  Readable none s = get s active_key ≡ none
  Readable (some a) s = get s active_key ≡ some (dumped a)

  abbrev pub is_free : Server → Bool
  is_free s = not (is_some (get s active_key) && is_some (get s lease_key))

  get_active-Readable :
      (o : Option ActiveImpersonation) (s : Server)
      → Readable o s
      → get_active_impersonation redis lease s ≡ ok o
  unfolding get_active_impersonation
  get_active-Readable none s r = ground (arith, r)
  get_active-Readable (some a) s r = ground (arith, r)

  -- Beside a free lock every session is stale.
  stale-free :
      (o : Option ActiveImpersonation) (id : Text) (s : Server)
      → Readable o s
      → is_free s ≡ true
      → stale_beside redis lease id o s ≡ true
  unfolding is_worker_alive
  stale-free none id s r free = refl
  stale-free (some a) id s r free = ground (arith, r, free)

  is_session_stale-free :
      (o : Option ActiveImpersonation) (id : Text) (w : World Server)
      → Readable o w.server
      → is_free w.server ≡ true
      → is_session_stale redis lease (some id) w ≡ (ok true, w)
  unfolding is_session_stale
  is_session_stale-free o id w r free =
      ground (arith, get_active-Readable o w.server r, stale-free o id w.server r free)

  -- The cleanup before a claim leaves no session.
  cleanup-free :
      (o : Option ActiveImpersonation) (w : World Server)
      → Readable o w.server
      → is_free w.server ≡ true
      → IsNamed w.holder
      → (b : Bool) × (h : Holder) × (cleanup_stale_session redis lease true w
          ≡ (ok b, record w { holder = h }))
        × (h.impersonation_session ≡ none)
  unfolding cleanup_stale_session end_session
  cleanup-free o w r free (inl gone) = (false, w.holder, ground (arith, gone), gone)
  cleanup-free o w r free (inr (id, named)) = elim (Option-cases w.holder.impersonation_session) [
    | inl gone ↦ (false, w.holder, ground (arith, gone), gone)
    | inr (s, there) ↦
        (true, no_session, ground (arith, there, named, is_session_stale-free o id w r free), refl)
  ]

  -- The audits after the one of a replaced impersonation is ended.
  abbrev pub audits_after :
      ℕ → Option ActiveImpersonation → List ImpersonationAudit → List ImpersonationAudit
  audits_after now none audits = audits
  audits_after now (some r) audits =
      save_audit_entry r.impersonation_id (ends now worker_crash_detected) audits

  end_replaced-none :
      (now : ℕ) (o : Option ActiveImpersonation) (w : World Server)
      → w.holder.impersonation_session ≡ none
      → (h : Holder) × (end_replaced redis lease now o w
          ≡ (ok tt, record w { holder = h; audits = audits_after now o w.audits }))
        × (h.impersonation_session ≡ none)
  unfolding end_session
  end_replaced-none now none w gone = (w.holder, refl, gone)
  end_replaced-none now (some r) w gone = (no_session, refl, refl)

  -- What the start of `a` in place of `o` leaves.
  unfoldable pub started_world :
      ℕ → ActiveImpersonation → Option ActiveImpersonation → Server → World Server → World Server
  started_world now a o s w = record w {
    server = s;
    holder = record {
      impersonation_session = some w.sandbox;
      impersonation_id = some a.impersonation_id;
      started_at = some now;
    };
    audits =
        save_audit_entry a.impersonation_id (starts a.admin_user_id a.target_user_id now)
          (audits_after now o w.audits);
  }

  start_session-none :
      (now : ℕ) (id : Text) (committed : List SandboxRecord) (h : Holder)
      → h.impersonation_session ≡ none
      → start_session now id committed h ≡ (
        ok tt,
        record {
          impersonation_session = some committed;
          impersonation_id = some id;
          started_at = some now;
        },
      )
  unfolding start_session
  start_session-none now id committed h gone = ground (arith, gone)

  -- The part of `start_claimed` after the session is opened.
  opened :
      ℕ → ActiveImpersonation → Option ActiveImpersonation → Action (World Server) (Info × Bool)
  opened now a o = do
    save_audit a.impersonation_id (starts a.admin_user_id a.target_user_id now)
    (records, started_at) ← on_holder (use_session true a.impersonation_id)
    gets (λ w. (build_impersonation_info redis lease now a records started_at w, is_some o))

  use_session-own :
      (now : ℕ) (id : Text) (committed : List SandboxRecord)
      → let h : Holder = record {
        impersonation_session = some committed;
        impersonation_id = some id;
        started_at = some now;
      } in
        use_session true id h ≡ (ok (committed, some now), h)
  unfolding use_session
  use_session-own now id committed = ground (arith, ≐_self id)

  start_claimed-ok :
      (now : ℕ) (a : ActiveImpersonation) (o : Option ActiveImpersonation) (w : World Server)
      → w.holder.impersonation_session ≡ none
      → let w' = started_world now a o w.server w in
        start_claimed redis lease true now a (true, o) w
        ≡ (ok (build_impersonation_info redis lease now a w.sandbox (some now) w', is_some o), w')
  unfolding start_claimed started_world opened
  start_claimed-ok now a o w gone =
      let id = a.impersonation_id in
      let (h, replaced, none_held) = end_replaced-none now o w gone in
      let w1 : World Server = record w { holder = h; audits = audits_after now o w.audits } in
      let w2 : World Server = record w1 {
        holder = record {
          impersonation_session = some w.sandbox;
          impersonation_id = some id;
          started_at = some now;
        };
      } in
      let w3 : World Server = started_world now a o w.server w in
      >>=-ok (end_replaced redis lease now o)
        (λ _. (λ v. on_holder (start_session now id v.sandbox) v) >> opened now a o) w w1 tt
        replaced
      ∙ >>=-ok (λ v. on_holder (start_session now id v.sandbox) v) (λ _. opened now a o) w1 w2 tt
          (ap (λ x. (x.0, record w1 { holder = x.1 }))
            (start_session-none now id w.sandbox h none_held))
      ∙ >>=-ok (on_holder (use_session true id))
          (λ x. gets (λ v. (build_impersonation_info redis lease now a x.0 x.1 v, is_some o))) w3 w3
          (w.sandbox, some now)
          (ap (λ x. (x.0, record w3 { holder = x.1 })) (use_session-own now id w.sandbox))

  try_claim-Readable :
      (0 < lease)
      → (a : ActiveImpersonation) (o : Option ActiveImpersonation) (s : Server) → Readable o s
      → is_free s ≡ true
      → try_claim_impersonation redis lease a s
        ≡ (ok (true, o), (try_claim_impersonation redis lease a s).1)
  unfolding try_claim_impersonation
  try_claim-Readable pos a none s r free = ground (arith, r, free)
  try_claim-Readable pos a (some b) s r free = ground (arith, r, free)

  -- The id of a new impersonation is not that of the one in the lock.
  abbrev pub IsFresh : Text → Option ActiveImpersonation → Type 0
  IsFresh id none = Unit
  IsFresh id (some r) = (id ≐ r.impersonation_id) ≡ false

  abbrev pub is_reclaimed : Option ActiveImpersonation → List ImpersonationAudit → Bool
  is_reclaimed none audits = true
  is_reclaimed (some r) audits = is_ended (find_audit r.impersonation_id audits)

  pub is_reclaimed-after :
      (now : ℕ) (a : ActiveImpersonation) (o : Option ActiveImpersonation)
      (audits : List ImpersonationAudit)
      → IsFresh a.impersonation_id o
      → is_reclaimed o (
          save_audit_entry a.impersonation_id
            (starts a.admin_user_id a.target_user_id now)
            (audits_after now o audits))
        ≡ true
  is_reclaimed-after now a none audits fresh = refl
  is_reclaimed-after now a (some r) audits fresh =
      ap is_ended (
        save_audit_entry-other a.impersonation_id r.impersonation_id
          (starts a.admin_user_id a.target_user_id now) (audits_after now (some r) audits) fresh)
      ∙ save_audit_entry-ends r.impersonation_id now worker_crash_detected audits

  -- The worker and the lock are those of the impersonation, and its audit is active.
  pub record IsRunning (a : ActiveImpersonation) (w : World Server) : Type 0 where
    pub in_lock : get w.server active_key ≡ some (dumped a)
    pub leased : get w.server lease_key ≡ some heartbeat
    pub session_held : has_session a.impersonation_id w.holder ≡ true
    pub audited : is_active (find_audit a.impersonation_id w.audits) ≡ true

  module _ (lease_pos : 0 < lease) where
    pub start_as-free :
        (now : ℕ) (a : ActiveImpersonation) (o : Option ActiveImpersonation) (w : World Server)
        → Readable o w.server
        → is_free w.server ≡ true
        → IsNamed w.holder
        → let w' = started_world now a o (held redis lease lease_pos a w.server) w in
          start_as redis lease true true now a w
          ≡ (ok (build_impersonation_info redis lease now a w.sandbox (some now) w', is_some o), w')
    unfolding start_as started_world
    start_as-free now a o w r free named =
        let (b, h, cleaned, none_held) = cleanup-free o w r free named in
        let s' = held redis lease lease_pos a w.server in
        let w1 : World Server = record w { holder = h } in
        let w2 : World Server = record w1 { server = s' } in
        let claim =
          try_claim-Readable lease_pos a o w.server r free
          ∙ ap (λ s. (ok (true, o), s))
              (try_claim-free redis lease lease_pos a w.server (ground (arith, free))) in
        >>=-ok (cleanup_stale_session redis lease true)
          (λ _.
            on_server (try_claim_impersonation redis lease a)
            >>= start_claimed redis lease true now a)
          w w1 b cleaned
        ∙ >>=-ok (on_server (try_claim_impersonation redis lease a))
            (start_claimed redis lease true now a) w1 w2 (true, o)
            (ap (λ x. (x.0, record w1 { server = x.1 })) claim)
        ∙ start_claimed-ok now a o w2 none_held
