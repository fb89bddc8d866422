-- ===== src/Monitor/Access/Blocking.antt =====
-- When attempts at access are blocked, and for how long.
use remote_connect_backend.Base.{
  ℕ, zero, suc, ◌+◌, ◌*◌, ◌≤◌, ◌<◌, ◌≡◌, refl, ◌∙◌, sym, subst, ap, if◌then◌else◌, Bool, true,
  false, none, some, List, [], ◌∷◌, arith, length, leb,
}
use remote_connect_backend.Base.Action.{Result, ok, raised, other}
use remote_connect_backend.RateLimiting.Window.{Bucket, found, drop_old}
use remote_connect_backend.Monitor.Access.{
  AccessSettings, Address, existing_duration, count_violation, escalation, violation,
  record_violation, record_violations,
}

abbrev replicate : ℕ → Result (Bool × Bool) → List (Result (Bool × Bool))
replicate zero x = []
replicate (suc n) x = x ∷ replicate n x

abbrev pub doubled : ℕ → ℕ → ℕ
doubled zero d = d
doubled (suc n) d = doubled n (d * 2)

-- When a block is over once each of the attempts has doubled it.
abbrev pub over_after : ℕ → ℕ → List ℕ → ℕ
over_after d ends [] = ends
over_after d ends (now ∷ times) = over_after (d * 2) (now + d * 2) times

-- Each of the attempts comes before the block that the one before it has left is over, and Redis takes
-- the block that it makes.
abbrev pub Insisting : (ℕ → ℕ → Bool) → ℕ → ℕ → List ℕ → Type 0
Insisting takes d ends [] = Unit
Insisting takes d ends (now ∷ times) =
    (now < ends) × (takes now (d * 2) ≡ true) × Insisting takes (d * 2) (now + d * 2) times

-- The times are in the window that starts at a time.
abbrev pub InWindow : ℕ → ℕ → List ℕ → Type 0
InWindow start window [] = Unit
InWindow start window (t ∷ times) = (start ≤ t) × (t < start + window) × InWindow start window times

still_there :
    (start t window u : ℕ) (hits : List ℕ)
    → start ≤ t
    → u < start + window
    → found u (record { hits = t ∷ hits; expires = some (t + window) }) ≡ t ∷ hits
unfolding found
still_there start t window u hits h u_in = ground (arith, h, u_in)

module _ (takes : ℕ → ℕ → Bool) (settings : AccessSettings) where
  open settings use {window_seconds, max_unauthenticated, block_seconds}

  record_violation-blocked :
      (now d ends : ℕ) (counter : Bucket)
      → now < ends
      → let a : Address = record { block = some (d, ends); counter = counter } in
        record_violation takes settings now a ≡ escalation takes now a (d * 2)
  unfolding record_violation
  record_violation-blocked now d ends counter h = ground (arith, h)

  -- While each attempt comes before the block that the one before it has left is over, and Redis takes
  -- the doubled blocks, each is blocked and doubles the block, which is over as long as that after the
  -- last attempt. The next attempt before then doubles it again, or raises and changes nothing where
  -- Redis does not take the expiry.
  pub record_violations-Insisting :
      (d ends : ℕ) (counter : Bucket) (times : List ℕ)
      → Insisting takes d ends times
      → (now : ℕ) → now < over_after d ends times
      → let (replies, a) =
          record_violations takes settings times
            (record { block = some (d, ends); counter = counter }) in
        let longer = doubled (length times) d * 2 in
        (replies ≡ replicate (length times) (ok (true, true)))
        × (a ≡ record {
          block = some (doubled (length times) d, over_after d ends times);
          counter = counter;
        })
        × (record_violation takes settings now a ≡ (
            if takes now longer
            then (
              ok (true, true),
              record { block = some (longer, now + longer); counter = counter },
            )
            else (raised other, a)))
  unfolding record_violations
  record_violations-Insisting d ends counter [] h now before =
      (refl, refl, record_violation-blocked now d ends counter before)
  record_violations-Insisting d ends counter (t ∷ times) h now before =
      let longer = doubled (length times) (d * 2) * 2 in
      let step = record_violation-blocked t d ends counter h.0 ∙ ground (arith, h.1) in
      let (replies, left, next) =
        record_violations-Insisting (d * 2) (t + d * 2) counter times h.2 now before in
      (
        ap (λ x. x.0 ∷ (record_violations takes settings times x.1).0) step
            ∙ ap (λ rs. ok (true, true) ∷ rs) replies,
        ap (λ x. (record_violations takes settings times x.1).1) step ∙ left,
        subst
            (λ x.
              let a = (record_violations takes settings times x.1).1 in
              record_violation takes settings now a ≡ (
                if takes now longer
                then (
                  ok (true, true),
                  record { block = some (longer, now + longer); counter = counter },
                )
                else (raised other, a)))
            (sym step) next,
      )

  drop_old-InWindow :
      (start now : ℕ) (hits : List ℕ)
      → now < start + window_seconds
      → InWindow start window_seconds hits
      → drop_old now window_seconds hits ≡ hits
  unfolding drop_old
  drop_old-InWindow start now [] h hits_in = refl
  drop_old-InWindow start now (t ∷ hits) h hits_in =
      ground (arith, hits_in.0, drop_old-InWindow start now hits h hits_in.2)

  -- Attempts that the counter holds, in a window that is not over.
  record Counted (start : ℕ) (hits : List ℕ) (a : Address) : Type 0 where
    free : a.block ≡ none
    counted : (now : ℕ) → now < start + window_seconds → found now a.counter ≡ hits
    hits_in : InWindow start window_seconds hits

  record_violation-Counted :
      (start now : ℕ) (hits : List ℕ) (a : Address)
      → now < start + window_seconds
      → Counted start hits a
      → record_violation takes settings now a
        ≡ (let (reply, a') = count_violation settings now hits a in (ok reply, a'))
  unfolding record_violation
  record_violation-Counted start now hits a h c =
      let counted_as : List ℕ → Result (Bool × Bool) × Address =
        λ ts. let (reply, a') = count_violation settings now ts a in (ok reply, a') in
      ap (λ o. violation takes settings now a (existing_duration now o)) c.free
      ∙ ap (λ ts. counted_as (drop_old now window_seconds ts)) (c.counted now h)
      ∙ ap counted_as (drop_old-InWindow start now hits h c.hits_in)

  -- A counter with room takes the attempts of the window up to the limit, and the next one is blocked.
  record_violations-Counted :
      (start : ℕ) (hits times : List ℕ) (a : Address)
      → Counted start hits a
      → InWindow start window_seconds times
      → length times + length hits ≤ max_unauthenticated
      → (now : ℕ) → now < start + window_seconds
      → let (replies, a') = record_violations takes settings times a in
        (replies ≡ replicate (length times) (ok (false, false)))
        × ((record_violation takes settings now a').0
            ≡ ok (leb max_unauthenticated (length times + length hits), false))
  unfolding record_violations
  record_violations-Counted start hits [] a c times_in few now h =
      (refl, ap (λ x. x.0) (record_violation-Counted start now hits a h c) ∙ ground arith)
  record_violations-Counted start hits (t ∷ times) a c times_in few now h =
      let a1 : Address = record {
        block = a.block;
        counter = record { hits = t ∷ hits; expires = some (t + window_seconds) };
      } in
      let step : record_violation takes settings t a ≡ (ok (false, false), a1) =
        record_violation-Counted start t hits a times_in.1 c ∙ ground (arith, few) in
      let c1 : Counted start (t ∷ hits) a1 = record {
        free = c.free;
        counted = λ u u_in. still_there start t window_seconds u hits times_in.0 u_in;
        hits_in = (times_in.0, times_in.1, c.hits_in);
      } in
      let rest =
        record_violations-Counted start (t ∷ hits) times a1 c1 times_in.2 (omega (arith, few)) now
          h in
      (
        ap (λ x. x.0 ∷ (record_violations takes settings times x.1).0) step
            ∙ ap (λ rs. ok (false, false) ∷ rs) rest.0,
        ap
              (λ x.
                (record_violation takes settings now
                  (record_violations takes settings times x.1).1).0)
              step
            ∙ rest.1
            ∙ ground arith,
      )

  -- From no block and no attempts, the attempts in one window are not blocked up to the limit, and the
  -- next one in it is blocked exactly if the limit is reached.
  pub record_violations-fresh :
      (start : ℕ) (times : List ℕ)
      → InWindow start window_seconds times
      → length times ≤ max_unauthenticated
      → (now : ℕ) → now < start + window_seconds
      → let (replies, a) =
          record_violations takes settings times
            (record { block = none; counter = record { hits = []; expires = none } }) in
        (replies ≡ replicate (length times) (ok (false, false)))
        × ((record_violation takes settings now a).0
            ≡ ok (leb max_unauthenticated (length times), false))
  unfolding found
  record_violations-fresh start times times_in few now h =
      let a : Address = record { block = none; counter = record { hits = []; expires = none } } in
      let (replies, next) =
        record_violations-Counted start [] times a
          (record { free = refl; counted = λ u u_in. refl; hits_in = tt }) times_in
          (omega (arith, few)) now h in
      (replies, next ∙ ground arith)
