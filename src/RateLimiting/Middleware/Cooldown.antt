-- ===== src/RateLimiting/Middleware/Cooldown.antt =====
-- What a client that does not wait gets, where Redis answers.
use remote_connect_backend.Base.{
  ℕ, ◌+◌, ◌<◌, ◌≡◌, refl, ◌∙◌, sym, subst, ap, Bool, true, false, some, List, [], ◌∷◌, arith,
  if◌then◌else◌, Bool-cases, inl, inr,
}
use remote_connect_backend.Base.Text.{Text, codes, contains, ◌≐◌, ≐_self}
use remote_connect_backend.Redis.{Redis, raw, redis_set, aged}
use remote_connect_backend.Authorization.{normalized_path}
use remote_connect_backend.RateLimiting.Middleware.{
  Request, Reply, limited, Store, PathSettings, cooldown_key, is_positive, cooldown_is_active,
  cool_down, pass_or_cool_down, count_path_hit, path_dispatch,
}
use remote_connect_backend.RateLimiting.Middleware.Lockout.{all_answer}

-- Whether a request is one that the limit is for.
abbrev pub is_counted : PathSettings → Request → Bool
is_counted cfg r =
    if r.method ≐ codes "OPTIONS"
    then false
    else contains (normalized_path r.path) cfg.rate_limited_paths

-- Counted requests of one client for one path, each before the cooldown from the last one is over.
unfoldable pub IsInsisting : PathSettings → Text → List (ℕ × Request) → Type 0
IsInsisting cfg key [] = Unit
IsInsisting cfg key ((n, r) ∷ rest) =
    (n < cfg.cooldown_seconds)
    × (is_counted cfg r ≡ true)
    × (cooldown_key r ≡ key)
    × IsInsisting cfg key rest

unfoldable pub all_limited : PathSettings → List (ℕ × Request) → List Reply
all_limited cfg [] = []
all_limited cfg (v ∷ visits) = limited cfg.cooldown_seconds ∷ all_limited cfg visits

module _ (redis : Redis) (cfg : PathSettings) where
  open redis use {Server, life, wait, life-set_ex, life-wait}

  -- The replies to requests that each come some seconds after the last one.
  unfoldable pub replies_from : ℕ → List (ℕ × Request) → Store Server → List Reply
  replies_from now [] st = []
  replies_from now ((n, r) ∷ rest) st =
      let (reply, st1) =
        path_dispatch redis all_answer cfg (now + n) r (record st { server = wait n st.server }) in
      reply ∷ replies_from (now + n) rest st1

  -- A store in which the cooldown under a key has just been started.
  abbrev Cooling : Text → Store Server → Type 0
  Cooling key st = life st.server key ≡ some cfg.cooldown_seconds

  module _ (cooldown_pos : 0 < cfg.cooldown_seconds) where
    cool_down-Cooling :
        (key : Text) (st : Store Server) → Cooling key (cool_down redis true cfg key st).1
    unfolding cool_down redis_set
    cool_down-Cooling key st = ground (
      arith,
      life-set_ex key key (raw (codes "1")) cfg.cooldown_seconds st.server cooldown_pos,
      ≐_self key,
    )

    dispatch-cooling :
        (now : ℕ) (r : Request) (st : Store Server)
        → is_counted cfg r ≡ true
        → cooldown_is_active redis true (cooldown_key r) st.server ≡ true
        → path_dispatch redis all_answer cfg now r st ≡ cool_down redis true cfg (cooldown_key r) st
    unfolding path_dispatch
    dispatch-cooling now r st counted active = ground (arith, counted, active)

    -- A reply of 429 starts the cooldown.
    pass_or_cool_down-Cooling :
        (key : Text) (x : Bool × Store Server)
        → (pass_or_cool_down redis true cfg key x).0 ≡ limited cfg.cooldown_seconds
        → Cooling key (pass_or_cool_down redis true cfg key x).1
    pass_or_cool_down-Cooling key (true, st) refused = absurd (ground (arith, refused))
    pass_or_cool_down-Cooling key (false, st) refused = cool_down-Cooling key st

    limited-Cooling :
        (now : ℕ) (r : Request) (st : Store Server)
        → is_counted cfg r ≡ true
        → (path_dispatch redis all_answer cfg now r st).0 ≡ limited cfg.cooldown_seconds
        → Cooling (cooldown_key r) (path_dispatch redis all_answer cfg now r st).1
    unfolding path_dispatch
    limited-Cooling now r st counted refused =
        elim (Bool-cases (cooldown_is_active redis true (cooldown_key r) st.server)) [
          | inl active ↦
              subst (λ x. Cooling (cooldown_key r) x.1)
                (sym (dispatch-cooling now r st counted active))
                (cool_down-Cooling (cooldown_key r) st)
          | inr cool ↦
              let open_now : path_dispatch redis all_answer cfg now r st
                  ≡ count_path_hit redis all_answer cfg now r st =
                ground (arith, counted, cool) in
              subst (λ x. Cooling (cooldown_key r) x.1) (sym open_now)
                (pass_or_cool_down-Cooling (cooldown_key r) _
                  (ap (λ x. x.0) (sym open_now) ∙ refused))
        ]

    -- A cooldown that has just been started is active until it is over.
    active_later :
        (key : Text) (st : Store Server) (n : ℕ)
        → Cooling key st
        → n < cfg.cooldown_seconds
        → cooldown_is_active redis true key (wait n st.server) ≡ true
    unfolding cooldown_is_active
    active_later key st n cooling within =
        ap is_positive (life-wait n st.server key)
        ∙ ap (λ o. is_positive (aged n o)) cooling
        ∙ ground (arith, within)

    replies-Cooling :
        (key : Text) (visits : List (ℕ × Request)) (now : ℕ) (st : Store Server)
        → Cooling key st
        → IsInsisting cfg key visits
        → replies_from now visits st ≡ all_limited cfg visits
    unfolding replies_from all_limited IsInsisting cool_down
    replies-Cooling key [] now st cooling insisting = refl
    replies-Cooling key ((n, r) ∷ rest) now st cooling (within, counted, same, insisting) =
        let waited : Store Server = record st { server = wait n st.server } in
        let active : cooldown_is_active redis true (cooldown_key r) (wait n st.server) ≡ true =
          subst (λ k. cooldown_is_active redis true k (wait n st.server) ≡ true) (sym same)
            (active_later key st n cooling within) in
        let cooled = dispatch-cooling (now + n) r waited counted active in
        let started =
          subst (λ k. Cooling k (cool_down redis true cfg (cooldown_key r) waited).1) same
            (cool_down-Cooling (cooldown_key r) waited) in
        ap (λ x. x.0 ∷ replies_from (now + n) rest x.1) cooled
        ∙ ap (λ replies. limited cfg.cooldown_seconds ∷ replies)
            (replies-Cooling key rest (now + n) (cool_down redis true cfg (cooldown_key r) waited).1
              started insisting)

  -- Where Redis answers and the cooldown lasts at least a second: once a request for a limited path is
  -- answered by 429, each next one of the same client for it that comes before the cooldown from the
  -- last one is over is answered so as well.
  pub path_dispatch-insisting :
      (now : ℕ) (r : Request) (st : Store Server) (visits : List (ℕ × Request))
      → 0 < cfg.cooldown_seconds
      → is_counted cfg r ≡ true
      → (path_dispatch redis all_answer cfg now r st).0 ≡ limited cfg.cooldown_seconds
      → IsInsisting cfg (cooldown_key r) visits
      → replies_from now visits (path_dispatch redis all_answer cfg now r st).1
        ≡ all_limited cfg visits
  path_dispatch-insisting now r st visits cooldown_pos counted refused insisting =
      replies-Cooling cooldown_pos (cooldown_key r) visits now
        (path_dispatch redis all_answer cfg now r st).1
        (limited-Cooling cooldown_pos now r st counted refused) insisting
