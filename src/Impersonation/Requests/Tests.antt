-- ===== src/Impersonation/Requests/Tests.antt =====
-- An admin and the impersonation service over the server in memory, and the theorems at concrete
-- inputs.
use remote_connect_backend.Base.{
  ◌≡◌, refl, true, false, none, List, [], ◌∷◌, arith, if◌then◌else◌, ◌⊎◌, inl,
}
use remote_connect_backend.Base.Text.{codes, ◌≐◌}
use remote_connect_backend.Base.Int.{pos}
use remote_connect_backend.Base.Action.{ok, raised, http, other}
use remote_connect_backend.Redis.Memory.{memory, empty}
use remote_connect_backend.Impersonation.Lock.{
  active_key, lease_key, heartbeat, ActiveImpersonation, dumped,
}
use remote_connect_backend.Impersonation.Holder.{no_session}
use remote_connect_backend.Impersonation.World.{World, Info}
use remote_connect_backend.Impersonation.Service.{new_impersonation, start_impersonation}
use remote_connect_backend.Impersonation.Service.Starting.{IsRunning, is_reclaimed}
use remote_connect_backend.Impersonation.Service.Ending.{IsOver}
use remote_connect_backend.Impersonation.Requests.{verify_impersonation, logout}
use remote_connect_backend.Impersonation.Requests.Verifying.{
  owns, lives, verify_impersonation-cases,
}
use remote_connect_backend.Impersonation.Requests.Lifecycle.{
  after, start_impersonation-IsRunning, start_impersonation-logout,
}
use remote_connect_backend.Impersonation.Events.{
  Event, started, updated, adjusted_by, logged_out, passed, run,
}
use remote_connect_backend.Impersonation.Trail.{IsAudited}
use remote_connect_backend.Impersonation.Trail.Events.{run-IsAudited}

abbrev fresh_world : World memory.Server
fresh_world = record {
  server = empty;
  holder = no_session;
  audits = [];
  messages = [];
  sandbox = record { name = codes "counter"; value = pos 1 } ∷ [];
  users = [];
}

abbrev first : ActiveImpersonation
first = new_impersonation 10800 100 (codes "i1") 1 8 3600

-- An impersonation in the lock, with a lease.
abbrev locked_world : World memory.Server
locked_world = record fresh_world {
  server =
      memory.set_ex lease_key heartbeat 600 (memory.set_ex active_key (dumped first) 3600 empty);
}

verify_impersonation-cases_example :
    let x = verify_impersonation memory 600 true 200 (codes "i1") 1 locked_world in
    ((owns memory 600 (codes "i1") 1 first ≡ false)
      × (x ≡ (raised (http (if codes "i1" ≐ codes "i1" then 403 else 404)), locked_world)))
    ⊎ ((owns memory 600 (codes "i1") 1 first ≡ true)
        × (lives memory 600 200 first locked_world ≡ true)
        × (x ≡ (
          ok first,
          record locked_world {
            server = memory.set_ex lease_key heartbeat 600 locked_world.server;
          },
        )))
    ⊎ ((owns memory 600 (codes "i1") 1 first ≡ true)
        × (lives memory 600 200 first locked_world ≡ false)
        × (x.0 ≡ raised (http 410))
        × IsOver memory 600 (codes "i1") x.1)
unfolding active_key lease_key
verify_impersonation-cases_example =
    verify_impersonation-cases memory 600 200 (codes "i1") 1 first locked_world refl

start_impersonation-IsRunning_example :
    let x = start_impersonation memory 600 true true 10800 100 (codes "i1") 1 8 3600 fresh_world in
    (info : Info) × (x.0 ≡ ok (info, false))
    × (info.sandbox_records ≡ fresh_world.sandbox)
    × IsRunning memory 600 first x.1
    × (is_reclaimed memory 600 none x.1.audits ≡ true)
start_impersonation-IsRunning_example =
    start_impersonation-IsRunning memory 600 (omega arith) 10800 100 (codes "i1") 1 8 3600 none
      fresh_world refl refl (inl refl) tt

start_impersonation-logout_example :
    let x = start_impersonation memory 600 true true 10800 100 (codes "i1") 1 8 3600 fresh_world in
    let y = logout memory 600 true 900 (codes "i1") 1 (after memory 600 800 x.1) in
    (y.0 ≡ ok (codes "i1")) × IsOver memory 600 (codes "i1") y.1
start_impersonation-logout_example =
    start_impersonation-logout memory 600 (omega arith) 10800 100 (codes "i1") 1 8 3600 none
      fresh_world refl refl (inl refl) 800 900 (omega arith)

-- A second admin tries while the first one works, and a flush fails.
abbrev story : List Event
story =
    started true true 10800 100 (codes "i1") 1 8 3600
    ∷ started true true 10800 110 (codes "i2") 2 8 3600
    ∷ updated true 120 (codes "i1") 1 (codes "counter") (pos 5) (ok tt)
    ∷ passed 60
    ∷ adjusted_by true 180 (codes "i1") 1 (codes "counter") (pos 2) (raised other)
    ∷ started true true 10800 190 (codes "i3") 2 8 3600
    ∷ logged_out true 200 (codes "i3") 2
    ∷ []

run-IsAudited_example : IsAudited (run memory 600 story fresh_world)
run-IsAudited_example =
    run-IsAudited memory 600 story fresh_world (record { audited = λ id h. cc; named = refl })
