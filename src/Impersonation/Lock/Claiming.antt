-- ===== src/Impersonation/Lock/Claiming.antt =====
-- Who gets the lock, and who gives it back.
use remote_connect_backend.Base.{
  ℕ, ◌<◌, ◌≡◌, refl, ◌∙◌, sym, subst, ap, Bool, true, false, ◌&&◌, none, some, is_some, arith,
  if◌then◌else◌, leb,
}
use remote_connect_backend.Base.Text.{Text, ◌≐◌, ≐_self}
use remote_connect_backend.Base.Action.{Result, ok}
use remote_connect_backend.Redis.{Redis, Value, survives}
use remote_connect_backend.Impersonation.Lock.{
  active_key, lease_key, heartbeat, ActiveImpersonation, dumped, try_claim_impersonation,
  release_found, release_impersonation,
}

active-ne-lease : (active_key ≐ lease_key) ≡ false
unfolding active_key lease_key
active-ne-lease = refl

lease-ne-active : (lease_key ≐ active_key) ≡ false
unfolding active_key lease_key
lease-ne-active = refl

module _ (redis : Redis) (lease : ℕ) (lease_pos : 0 < lease) where
  open redis use {
    Server, get, life, set_ex, delete, wait, get-set_ex, get-delete, life-set_ex, get-wait,
  }

  -- The server after the claim.
  pub held : ActiveImpersonation → Server → Server
  held a s = set_ex lease_key heartbeat lease (set_ex active_key (dumped a) a.ttl_seconds s)

  pub try_claim-free :
      (a : ActiveImpersonation) (s : Server)
      → (is_some (get s active_key) && is_some (get s lease_key)) ≡ false
      → (try_claim_impersonation redis lease a s).1 ≡ held a s
  unfolding try_claim_impersonation held
  try_claim-free a s free = ground (arith, free)

  module _ (a : ActiveImpersonation) (ttl_pos : 0 < a.ttl_seconds) (s : Server) where
    pub get-held_active : get (held a s) active_key ≡ some (dumped a)
    unfolding held
    get-held_active = ground (
      arith,
      get-set_ex lease_key active_key heartbeat lease (set_ex active_key (dumped a) a.ttl_seconds s)
          lease_pos,
      get-set_ex active_key active_key (dumped a) a.ttl_seconds s ttl_pos,
      lease-ne-active,
      ≐_self active_key,
    )

    pub life-held_active : life (held a s) active_key ≡ some a.ttl_seconds
    unfolding held
    life-held_active = ground (
      arith,
      life-set_ex lease_key active_key heartbeat lease
          (set_ex active_key (dumped a) a.ttl_seconds s) lease_pos,
      life-set_ex active_key active_key (dumped a) a.ttl_seconds s ttl_pos,
      lease-ne-active,
      ≐_self active_key,
    )

    pub get-held_lease : get (held a s) lease_key ≡ some heartbeat
    unfolding held
    get-held_lease = ground (
      arith,
      get-set_ex lease_key lease_key heartbeat lease (set_ex active_key (dumped a) a.ttl_seconds s)
          lease_pos,
      ≐_self lease_key,
    )

    life-held_lease : life (held a s) lease_key ≡ some lease
    unfolding held
    life-held_lease = ground (
      arith,
      life-set_ex lease_key lease_key heartbeat lease (set_ex active_key (dumped a) a.ttl_seconds s)
          lease_pos,
      ≐_self lease_key,
    )

    pub waited :
        (n : ℕ) (key : Text) (v : Value) (t : ℕ)
        → get (held a s) key ≡ some v
        → life (held a s) key ≡ some t
        → get (wait n (held a s)) key ≡ (if survives n (some t) then some v else none)
    waited n key v t here lives =
        get-wait n (held a s) key
        ∙ ap (λ o. if survives n o then get (held a s) key else none) lives
        ∙ ap (λ o. if survives n (some t) then o else none) here

    claim_again :
        (b : ActiveImpersonation) (n : ℕ)
        → (try_claim_impersonation redis lease b (wait n (held a s))).0
          ≡ ok (
              if leb a.ttl_seconds n
              then (true, none)
              else if leb lease n
              then (true, some a)
              else (false, none))
    unfolding try_claim_impersonation
    claim_again b n =
        let first = waited n active_key (dumped a) a.ttl_seconds get-held_active life-held_active in
        let second = waited n lease_key heartbeat lease get-held_lease life-held_lease in
        ground (arith, first, second)

    claim_refused :
        (b : ActiveImpersonation) (n : ℕ)
        → n < lease
        → n < a.ttl_seconds
        → try_claim_impersonation redis lease b (wait n (held a s))
          ≡ (ok (false, none), wait n (held a s))
    unfolding try_claim_impersonation
    claim_refused b n young fresh =
        let first = waited n active_key (dumped a) a.ttl_seconds get-held_active life-held_active in
        let second = waited n lease_key heartbeat lease get-held_lease life-held_lease in
        ground (arith, first, second)

    release_held :
        (id : Text) (n : ℕ)
        → n < a.ttl_seconds
        → release_impersonation redis lease id (wait n (held a s)) ≡ (
            if a.impersonation_id ≐ id
            then (ok true, delete lease_key (delete active_key (wait n (held a s))))
            else (ok false, wait n (held a s)))
    unfolding release_impersonation
    release_held id n fresh =
        let first = waited n active_key (dumped a) a.ttl_seconds get-held_active life-held_active in
        let here : get (wait n (held a s)) active_key ≡ some (dumped a) = ground (arith, first) in
        ap (λ o. release_found redis lease id o (wait n (held a s))) here

    -- Where the lock was free, an impersonation that has claimed it keeps it for its life and its
    -- lease: after `n` seconds without a heartbeat, another claim takes a lock whose impersonation
    -- is over, takes over one whose lease is over and is told of it, and else is refused.
    pub try_claim_impersonation-again :
        (is_some (get s active_key) && is_some (get s lease_key)) ≡ false
        → (b : ActiveImpersonation) (n : ℕ)
        → (try_claim_impersonation redis lease b
            (wait n (try_claim_impersonation redis lease a s).1)).0
          ≡ ok (
              if leb a.ttl_seconds n
              then (true, none)
              else if leb lease n
              then (true, some a)
              else (false, none))
    try_claim_impersonation-again free b n =
        ap (λ x. (try_claim_impersonation redis lease b (wait n x)).0) (try_claim-free a s free)
        ∙ claim_again b n

    -- Where the lock was free, two impersonations are never active at once: while the lease and the
    -- life of the one that has claimed it last, another claim is refused and changes nothing.
    pub try_claim_impersonation-exclusive :
        (is_some (get s active_key) && is_some (get s lease_key)) ≡ false
        → (b : ActiveImpersonation) (n : ℕ) → n < lease
        → n < a.ttl_seconds
        → let later = wait n (try_claim_impersonation redis lease a s).1 in
          try_claim_impersonation redis lease b later ≡ (ok (false, none), later)
    try_claim_impersonation-exclusive free b n young fresh =
        subst (λ x. try_claim_impersonation redis lease b (wait n x) ≡ (ok (false, none), wait n x))
          (sym (try_claim-free a s free)) (claim_refused b n young fresh)

    -- What a release by the id does to the lock of `a`.
    abbrev Released : Text → Server → Type 0
    Released id later =
        let (released, s') = release_impersonation redis lease id later in
        (released ≡ ok (a.impersonation_id ≐ id))
        × ((j : Text)
            → get s' j ≡ (
                if (a.impersonation_id ≐ id) && (if active_key ≐ j then true else lease_key ≐ j)
                then none
                else get later j))

    -- Where the lock was free, an impersonation that has claimed it gives it back by its own id while
    -- it lives, and the keys are gone; by another id nothing changes.
    pub release_impersonation-claimed :
        (is_some (get s active_key) && is_some (get s lease_key)) ≡ false
        → (id : Text) (n : ℕ) → n < a.ttl_seconds
        → let later = wait n (try_claim_impersonation redis lease a s).1 in
          let (released, s') = release_impersonation redis lease id later in
          (released ≡ ok (a.impersonation_id ≐ id))
          × ((j : Text)
              → get s' j ≡ (
                  if (a.impersonation_id ≐ id) && (if active_key ≐ j then true else lease_key ≐ j)
                  then none
                  else get later j))
    release_impersonation-claimed free id n fresh =
        subst (λ x. Released id (wait n x)) (sym (try_claim-free a s free))
          (
            ap (λ (y : Result Bool × Server). y.0) (release_held id n fresh) ∙ ground arith,
            λ j.
                ap (λ (y : Result Bool × Server). get y.1 j) (release_held id n fresh)
                ∙ ground (
                  arith,
                  get-delete lease_key j (delete active_key (wait n (held a s))),
                  get-delete active_key j (wait n (held a s)),
                ),
          )
