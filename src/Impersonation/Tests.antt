-- ===== src/Impersonation/Tests.antt =====
-- The lock in the server in memory, and the theorems at concrete inputs.
use remote_connect_backend.Base.{
  ◌≡◌, refl, ◌&&◌, true, false, none, some, arith, if◌then◌else◌, leb,
}
use remote_connect_backend.Base.Text.{Text, codes, ◌≐◌}
use remote_connect_backend.Base.Action.{ok}
use remote_connect_backend.Redis.Memory.{memory, empty}
use remote_connect_backend.Impersonation.Lock.{
  active_key, lease_key, ActiveImpersonation, try_claim_impersonation, release_impersonation,
}
use remote_connect_backend.Impersonation.Lock.Claiming.{
  try_claim_impersonation-again, try_claim_impersonation-exclusive, release_impersonation-claimed,
}

abbrev first : ActiveImpersonation
first = record {
  impersonation_id = codes "i1";
  admin_user_id = 1;
  target_user_id = 8;
  started_at = 100;
  ttl_seconds = 10800;
}

abbrev second : ActiveImpersonation
second = record {
  impersonation_id = codes "i2";
  admin_user_id = 2;
  target_user_id = 9;
  started_at = 800;
  ttl_seconds = 10800;
}

-- The lease of 600 seconds is over after 700.
try_claim_impersonation-again_example :
    (try_claim_impersonation memory 600 second
      (memory.wait 700 (try_claim_impersonation memory 600 first empty).1)).0
    ≡ ok (
        if leb 10800 700
        then (true, none)
        else if leb 600 700
        then (true, some first)
        else (false, none))
try_claim_impersonation-again_example =
    try_claim_impersonation-again memory 600 (omega arith) first (omega arith) empty refl second 700

release_impersonation-claimed_example :
    let later = memory.wait 700 (try_claim_impersonation memory 600 first empty).1 in
    let (released, s') = release_impersonation memory 600 (codes "i1") later in
    (released ≡ ok (codes "i1" ≐ codes "i1"))
    × ((j : Text)
        → memory.get s' j ≡ (
            if (codes "i1" ≐ codes "i1") && (if active_key ≐ j then true else lease_key ≐ j)
            then none
            else memory.get later j))
release_impersonation-claimed_example =
    release_impersonation-claimed memory 600 (omega arith) first (omega arith) empty refl
      (codes "i1") 700 (omega arith)

try_claim_impersonation-exclusive_example :
    let later = memory.wait 500 (try_claim_impersonation memory 600 first empty).1 in
    try_claim_impersonation memory 600 second later ≡ (ok (false, none), later)
try_claim_impersonation-exclusive_example =
    try_claim_impersonation-exclusive memory 600 (omega arith) first (omega arith) empty refl second
      500 (omega arith) (omega arith)
