-- ===== src/Services.antt =====
-- `call` of apps/app/core/services.py, outside impersonation: a service runs in a transaction of
-- its own, and inside another service in that one's.
use remote_connect_backend.Base.{Bool, true, false}
use remote_connect_backend.Base.Action.{Result, Action, ok, raised}

-- `session.commit()`, or `session.rollback()` to the state before.
abbrev pub committed : {S A : Type 0} → S → Result A × S → Result A × S
committed s (ok a, s') = (ok a, s')
committed s (raised e, s') = (raised e, s)

-- `nested` tells that a context is current.
unfoldable pub call : {S A : Type 0} → Bool → Action S A → Action S A
call true service s = service s
call false service s = committed s (service s)

committed-holds :
    {S A : Type 0} (P : S → Type 0) (s : S) (x : Result A × S) → P s → P x.1 → P (committed s x).1
committed-holds P s (ok a, s') before kept = kept
committed-holds P s (raised e, s') before kept = before

-- What a service keeps, its transaction keeps.
pub call-preserves :
    {S A : Type 0} (P : S → Type 0) (service : Action S A) (s : S)
    → P s
    → P (service s).1
    → P (call false service s).1
unfolding call
call-preserves P service s before kept = committed-holds P s (service s) before kept
