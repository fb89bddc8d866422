-- ===== src/RateLimiting/Window/Bound.antt =====
-- No window has more hits than the limit.
use remote_connect_backend.Base.{
  ℕ, ◌+◌, ◌≤◌, ◌≡◌, refl, Bool, true, false, none, some, List, [], ◌∷◌, arith, length,
  if◌then◌else◌, leb, if_cases, Option-cases, inl, inr,
}
use remote_connect_backend.RateLimiting.Window.{
  Bucket, found, drop_old, check_and_record, Limiter, try_record_hit, let_through,
}
use remote_connect_backend.RateLimiting.Window.Counting.{
  recent, in_window, in_window-recent, recent-le, length-drop_old, recent-drop_old,
}

-- The times never go back.
abbrev pub Ascending : ℕ → List ℕ → Type 0
Ascending last [] = Unit
Ascending last (t ∷ ts) = (last ≤ t) × Ascending t ts

-- What holds of the requests let through up to the time `last`, and of the bucket.
record Known (window max_hits last : ℕ) (passed : List ℕ) (b : Bucket) : Type 0 where
  bounded : (t : ℕ) → in_window t window passed ≤ max_hits
  old : (t : ℕ) → last + window ≤ t → recent t window passed ≡ 0
  kept : (t : ℕ) → last ≤ t → recent t window passed ≤ recent t window (found t b)

found_later :
    (now t window : ℕ) (b : Bucket)
    → now ≤ t
    → recent t window (found t b) ≤ recent t window (found now b)
unfolding found recent
found_later now t window b h = elim (Option-cases b.expires) [
  | inl never ↦ ground (arith, never)
  | inr (e, ends) ↦ ground (arith, ends)
]

module _ (window max_hits last now : ℕ) (passed : List ℕ) (b : Bucket) (later : last ≤ now)
    (k : Known window max_hits last passed b) where
  abbrev ts : List ℕ
  ts = drop_old now window (found now b)

  -- The recent requests are among those that the script counts.
  counted : (t : ℕ) → now ≤ t → recent t window passed ≤ recent t window ts
  counted t h = omega (
    arith,
    later,
    k.kept t (omega (arith, later, h)),
    found_later now t window b h,
    recent-drop_old now t window (found now b) h,
  )

  Known-allowed :
      leb max_hits (length ts) ≡ false
      → Known window max_hits now
          (now ∷ passed)
          (record { hits = now ∷ ts; expires = some (now + window) })
  unfolding found recent in_window
  Known-allowed free = record {
    bounded = λ t. ground (
      arith,
      k.bounded t,
      counted t,
      in_window-recent t window passed,
      recent-le now t window ts,
      recent-drop_old now now window (found now b),
      length-drop_old now window (found now b),
    );
    old = λ t h. ground (arith, k.old t, later);
    kept = λ t h. ground (arith, k.old t, counted t h, later);
  }

  Known-denied : Known window max_hits now passed (record { hits = ts; expires = b.expires })
  unfolding found
  Known-denied = record {
    bounded = k.bounded;
    old = λ t h. k.old t (omega (arith, later, h));
    kept = λ t h. elim (Option-cases b.expires) [
      | inl never ↦ ground (arith, never, counted t h)
      | inr (e, ends) ↦ ground (arith, ends, counted t h, k.kept t)
    ];
  }

module _ (limiter : Limiter) where
  abbrev KnownAfter : ℕ → List ℕ × Bucket → Type 0
  KnownAfter last s = Known limiter.window_seconds limiter.max_hits last s.0 s.1

  abbrev after_one : ℕ → List ℕ × Bucket → List ℕ × Bucket
  after_one now s =
      let (allowed, b') = try_record_hit limiter none none true now s.1 in
      (if allowed then now ∷ s.0 else s.0, b')

  step-Known :
      (last now : ℕ) (s : List ℕ × Bucket)
      → last ≤ now
      → KnownAfter last s
      → KnownAfter now (after_one now s)
  unfolding try_record_hit check_and_record
  step-Known last now s later k =
      let window = limiter.window_seconds in
      let xs = drop_old now window (found now s.1) in
      if_cases (λ (x : Bool × Bucket). KnownAfter now (if x.0 then now ∷ s.0 else s.0, x.1))
        (leb limiter.max_hits (length xs)) (false, record { hits = xs; expires = s.1.expires })
        (true, record { hits = now ∷ xs; expires = some (now + window) })
        (λ _. Known-denied window limiter.max_hits last now s.0 s.1 later k)
        (λ free. Known-allowed window limiter.max_hits last now s.0 s.1 later k free)

  let_through-Known :
      (last : ℕ) (times : List ℕ) (s : List ℕ × Bucket)
      → Ascending last times
      → KnownAfter last s
      → (t : ℕ)
      → in_window t limiter.window_seconds (let_through limiter times s).0 ≤ limiter.max_hits
  unfolding let_through
  let_through-Known last [] s up k t = k.bounded t
  let_through-Known last (now ∷ times) s up k t =
      let_through-Known now times (after_one now s) up.1 (step-Known last now s up.0 k) t

-- From an empty bucket, with a Redis that answers and a clock that never goes back, the requests let
-- through are in no window more than the limit.
pub let_through-in_window :
    (limiter : Limiter) (times : List ℕ)
    → Ascending 0 times
    → (t : ℕ)
    → in_window t limiter.window_seconds
        (let_through limiter times ([], record { hits = []; expires = none })).0
      ≤ limiter.max_hits
unfolding in_window recent found
let_through-in_window limiter times up t =
    let_through-Known limiter 0 times ([], record { hits = []; expires = none }) up
      (record { bounded = λ u. omega arith; old = λ u h. refl; kept = λ u h. omega arith }) t
