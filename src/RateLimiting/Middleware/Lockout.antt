-- ===== src/RateLimiting/Middleware/Lockout.antt =====
-- How long a user is locked out, where Redis answers.
use remote_connect_backend.Base.{
  ℕ, ◌+◌, ◌-◌, ◌<◌, ◌≤◌, ◌≡◌, refl, ◌∙◌, sym, subst, ap, Bool, true, false, none, some, List, [],
  ◌∷◌, arith, length, if◌then◌else◌, leb, ltb, Bool-cases, Option-cases, inl, inr,
}
use remote_connect_backend.Base.Text.{≐_self}
use remote_connect_backend.Redis.{Redis, user_block, redis_get, redis_set}
use remote_connect_backend.Redis.Waiting.{get-waited}
use remote_connect_backend.RateLimiting.Window.{
  Bucket, found, drop_old, check_and_record, Limiter, try_record_hit,
}
use remote_connect_backend.RateLimiting.Middleware.{
  Request, Answers, passed, limited, Store, set_bucket, UserSettings, rate_key, block_key,
  record_hit, get_active_block, block_user, block_check, of_user, user_dispatch,
}

abbrev pub all_answer : Answers
all_answer = record { reads = true; counts = true; writes = true }

-- No hit is of a later time.
unfoldable pub IsPast : ℕ → List ℕ → Type 0
IsPast now [] = Unit
IsPast now (t ∷ ts) = (t ≤ now) × IsPast now ts

drop_old-IsPast :
    (now at window : ℕ) (ts : List ℕ) → IsPast now ts → IsPast now (drop_old at window ts)
unfolding IsPast drop_old
drop_old-IsPast now at window [] past = tt
drop_old-IsPast now at window (t ∷ ts) past = elim (Bool-cases (leb (t + window) at)) [
  | inl old ↦ ground (arith, old, drop_old-IsPast now at window ts past.1)
  | inr young ↦ ground (arith, young, past.0, drop_old-IsPast now at window ts past.1)
]

found-IsPast : (now at : ℕ) (b : Bucket) → IsPast now b.hits → IsPast now (found at b)
unfolding IsPast found
found-IsPast now at b past = elim (Option-cases b.expires) [
  | inl never ↦ ground (arith, never, past)
  | inr (e, ends) ↦ ground (arith, ends, past)
]

drop_old-all :
    (now later window : ℕ) (ts : List ℕ)
    → now + window ≤ later
    → IsPast now ts
    → drop_old later window ts ≡ []
unfolding IsPast drop_old
drop_old-all now later window [] h past = refl
drop_old-all now later window (t ∷ ts) h past =
    ground (arith, h, past.0, drop_old-all now later window ts h past.1)

-- Whether a bucket has no room for another hit.
abbrev pub is_full : Limiter → ℕ → Bucket → Bool
is_full limiter now b =
    leb limiter.max_hits (length (drop_old now limiter.window_seconds (found now b)))

module _ (redis : Redis) (cfg : UserSettings) where
  open redis use {Server, get, wait, set_ex}

  abbrev pub after : ℕ → Store Server → Store Server
  after n st = record st { server = wait n st.server }

  abbrev duration : ℕ
  duration = cfg.user_block_duration_seconds

  abbrev limiter : Limiter
  limiter = cfg.user_limiter

  -- The store once a user is blocked.
  abbrev blocked : ℕ → ℕ → Store Server → Store Server
  blocked now user st = record {
    server = set_ex (block_key user) (user_block now (now + duration)) duration st.server;
    buckets =
        set_bucket (rate_key user)
          (record {
            hits = drop_old now limiter.window_seconds (found now (st.buckets (rate_key user)));
            expires = (st.buckets (rate_key user)).expires;
          })
          st.buckets;
  }

  dispatch-unblocked :
      (now user : ℕ) (r : Request) (st : Store Server)
      → r.state_user_id ≡ some user
      → get_active_block redis true user st.server ≡ none
      → user_dispatch redis all_answer cfg now r st
        ≡ block_check redis all_answer cfg now user none st
  unfolding user_dispatch
  dispatch-unblocked now user r st of_request free =
      ap (λ o. of_user redis all_answer cfg now o st) of_request
      ∙ ap (λ o. block_check redis all_answer cfg now user o st) free

  check-full :
      (now user : ℕ) (st : Store Server)
      → is_full limiter now (st.buckets (rate_key user)) ≡ true
      → block_check redis all_answer cfg now user none st ≡ (limited duration, blocked now user st)
  unfolding record_hit try_record_hit check_and_record block_user redis_set
  check-full now user st full = ground (arith, full)

  check-free :
      (now user : ℕ) (st : Store Server)
      → is_full limiter now (st.buckets (rate_key user)) ≡ false
      → (block_check redis all_answer cfg now user none st).0 ≡ passed
  unfolding record_hit try_record_hit check_and_record
  check-free now user st free = ground (arith, free)

  module _ (duration_pos : 0 < duration) (now user n : ℕ) (st : Store Server) where
    abbrev st2 : Store Server
    st2 = after n (blocked now user st)

    block_later :
        get_active_block redis true user st2.server
        ≡ (if ltb n duration then some (now + duration) else none)
    unfolding get_active_block redis_get
    block_later = ground (
      arith,
      get-waited redis n (block_key user) (user_block now (now + duration)) duration st.server
          duration_pos,
    )

    locked :
        (r : Request)
        → r.state_user_id ≡ some user
        → n < duration
        → user_dispatch redis all_answer cfg (now + n) r st2 ≡ (limited (duration - n), st2)
    unfolding user_dispatch
    locked r of_request within =
        ap (λ o. of_user redis all_answer cfg (now + n) o st2) of_request
        ∙ ap (λ o. block_check redis all_answer cfg (now + n) user o st2)
            {y = some (now + duration)} (ground (arith, block_later, within))
        ∙ ap (λ k. (limited k, st2)) (omega arith)

    free_later :
        IsPast now (st.buckets (rate_key user)).hits
        → limiter.window_seconds ≤ duration
        → 0 < limiter.max_hits
        → duration ≤ n
        → is_full limiter (now + n) (st2.buckets (rate_key user)) ≡ false
    free_later past covers some_hits over =
        let kept : Bucket = record {
          hits = drop_old now limiter.window_seconds (found now (st.buckets (rate_key user)));
          expires = (st.buckets (rate_key user)).expires;
        } in
        let kept_past : IsPast now kept.hits =
          drop_old-IsPast now now limiter.window_seconds (found now (st.buckets (rate_key user)))
            (found-IsPast now now (st.buckets (rate_key user)) past) in
        ap (λ b. is_full limiter (now + n) b) {y = kept} (ground (arith, ≐_self (rate_key user)))
        ∙ ap (λ ts. leb limiter.max_hits (length ts)) {y = []}
            (drop_old-all now (now + n) limiter.window_seconds (found (now + n) kept)
              (omega (arith, covers, over)) (found-IsPast now (now + n) kept kept_past))
        ∙ ground (arith, some_hits)

    let_in :
        (r : Request)
        → r.state_user_id ≡ some user
        → IsPast now (st.buckets (rate_key user)).hits
        → limiter.window_seconds ≤ duration
        → 0 < limiter.max_hits
        → duration ≤ n
        → (user_dispatch redis all_answer cfg (now + n) r st2).0 ≡ passed
    let_in r of_request past covers some_hits over =
        ap (λ x. x.0)
          (dispatch-unblocked (now + n) user r st2 of_request (ground (arith, block_later, over)))
        ∙ check-free (now + n) user st2 (free_later past covers some_hits over)

  -- Where Redis answers, the user is not blocked, no hit is of a later time, some hits are allowed and
  -- a block lasts at least a second and as long as the window: a request of the user is limited
  -- exactly if the window is full. Then the user's next request, n seconds later, is limited with what
  -- is left of the block and changes nothing, or it is passed on where the block is over.
  pub user_dispatch-lockout :
      (now user : ℕ) (r : Request) (st : Store Server)
      → 0 < duration
      → limiter.window_seconds ≤ duration
      → 0 < limiter.max_hits
      → r.state_user_id ≡ some user
      → get_active_block redis true user st.server ≡ none
      → IsPast now (st.buckets (rate_key user)).hits
      → (n : ℕ) (next : Request) → next.state_user_id ≡ some user
      → let full = is_full limiter now (st.buckets (rate_key user)) in
        let (reply, st1) = user_dispatch redis all_answer cfg now r st in
        let again = user_dispatch redis all_answer cfg (now + n) next (after n st1) in
        (reply ≡ (if full then limited duration else passed))
        × (full ≡ true → n < duration → again ≡ (limited (duration - n), after n st1))
        × (full ≡ true → duration ≤ n → again.0 ≡ passed)
  user_dispatch-lockout now user r st duration_pos covers some_hits of_request free past n next
        of_next =
      let checked = dispatch-unblocked now user r st of_request free in
      let result : (full : is_full limiter now (st.buckets (rate_key user)) ≡ true)
          → user_dispatch redis all_answer cfg now r st ≡ (limited duration, blocked now user st) =
        λ full. checked ∙ check-full now user st full in
      (
        ap (λ x. x.0) checked
            ∙ elim (Bool-cases (is_full limiter now (st.buckets (rate_key user)))) [
              | inl full ↦ ap (λ x. x.0) (check-full now user st full) ∙ ground (arith, full)
              | inr room ↦ check-free now user st room ∙ ground (arith, room)
            ],
        λ full within.
            subst
              (λ x.
                user_dispatch redis all_answer cfg (now + n) next (after n x.1)
                ≡ (limited (duration - n), after n x.1))
              (sym (result full)) (locked duration_pos now user n st next of_next within),
        λ full over.
            subst
              (λ x. (user_dispatch redis all_answer cfg (now + n) next (after n x.1)).0 ≡ passed)
              (sym (result full))
              (let_in duration_pos now user n st next of_next past covers some_hits over),
      )
