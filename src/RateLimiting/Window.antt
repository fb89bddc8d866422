-- ===== src/RateLimiting/Window.antt =====
-- `SlidingWindowRateLimiter` of apps/app/core/rate_limiting/limiter.py, for one key. The sorted set
-- under the key is the list of its scores: each member has a random part, so each hit is a new one.
-- Times and windows are whole numbers of one unit.
pub mod Counting
pub mod Bound
use remote_connect_backend.Base.{
  ℕ, ◌+◌, Bool, true, false, Option, none, some, List, [], ◌∷◌, length, if◌then◌else◌, leb,
}

-- The scores, and when the key expires.
pub record Bucket : Type 0 where
  pub hits : List ℕ
  pub expires : Option ℕ

-- What the server finds under the key at a time.
unfoldable pub found : ℕ → Bucket → List ℕ
found now b = elim b.expires [ none ↦ b.hits | some t ↦ if leb t now then [] else b.hits ]

-- `ZREMRANGEBYSCORE key -inf (now - window)`
unfoldable pub drop_old : ℕ → ℕ → List ℕ → List ℕ
drop_old now window [] = []
drop_old now window (t ∷ ts) =
    let rest = drop_old now window ts in if leb (t + window) now then rest else t ∷ rest

-- The script. Where nothing is recorded, the key keeps its expiry.
unfoldable pub check_and_record : ℕ → ℕ → ℕ → Bucket → Bool × Bucket
check_and_record now window max_hits b =
    let ts = drop_old now window (found now b) in
    if leb max_hits (length ts)
    then (false, record { hits = ts; expires = b.expires })
    else (true, record { hits = now ∷ ts; expires = some (now + window) })

pub record Limiter : Type 0 where
  pub window_seconds : ℕ
  pub max_hits : ℕ

abbrev or_own : Option ℕ → ℕ → ℕ
or_own none own = own
or_own (some n) own = n

-- Where Redis does not answer, the request is let through.
unfoldable pub try_record_hit : Limiter → Option ℕ → Option ℕ → Bool → ℕ → Bucket → Bool × Bucket
try_record_hit limiter window hits' false now b = (true, b)
try_record_hit limiter window hits' true now b =
    check_and_record now (or_own window limiter.window_seconds) (or_own hits' limiter.max_hits) b

-- The times of the requests that are let through, the last one first, and the bucket after them.
unfoldable pub let_through : Limiter → List ℕ → List ℕ × Bucket → List ℕ × Bucket
let_through limiter [] s = s
let_through limiter (now ∷ times) (passed, b) =
    let (allowed, b') = try_record_hit limiter none none true now b in
    let_through limiter times (if allowed then now ∷ passed else passed, b')
