-- ===== src/Monitor/Tests.antt =====
-- The sessions over the server in memory, and the theorems at concrete inputs.
use remote_connect_backend.Base.{
  ℕ, ◌+◌, ◌*◌, Bool, ◌≡◌, refl, not, ◌&&◌, true, false, none, some, [], ◌∷◌, arith, leb,
}
use remote_connect_backend.Base.Text.{Text, codes}
use remote_connect_backend.Base.Action.{ok, raised, other}
use remote_connect_backend.Redis.{raw, session, redis_get}
use remote_connect_backend.Redis.Memory.{memory, empty}
use remote_connect_backend.Monitor.Access.{
  AccessSettings, Address, record_violation, record_violations,
}
use remote_connect_backend.Monitor.Access.Blocking.{
  record_violations-fresh, record_violations-Insisting,
}
use remote_connect_backend.Monitor.Session.{
  MonitorSettings, bootstrap_token_key, session_token_key, generate_session_token, redeem_session,
  is_session_token_valid,
}
use remote_connect_backend.Monitor.Session.Lifetime.{
  redeem_session-once, is_session_token_valid-new, is_session_token_valid-again,
}

abbrev hourly : MonitorSettings
hourly = record {
  monitor_enabled = true;
  monitor_token_ttl_seconds = 60;
  monitor_token_idle_timeout_seconds = 20;
}

abbrev link : Text
link = codes "b"

abbrev token : Text
token = codes "s"

abbrev linked : memory.Server
linked = memory.set_ex (bootstrap_token_key link) (raw (codes "1")) 60 empty

abbrev used : memory.Server
used = memory.set_ex (session_token_key token) (session 100) 20 empty

redeem_session-once_example :
    let s' = memory.wait 5 (redeem_session memory hourly 100 link token linked).1 in
    redeem_session memory hourly 105 link (codes "t") s' ≡ (none, s')
redeem_session-once_example =
    redeem_session-once memory hourly (omega arith) 100 link token linked refl 105 5 (codes "t")

is_session_token_valid-new_example :
    (is_session_token_valid memory hourly
      (100 + 15)
      token
      (memory.wait 15 (generate_session_token memory hourly 100 token empty).1)).0
    ≡ (not (leb 20 15) && not (leb 60 15))
is_session_token_valid-new_example =
    is_session_token_valid-new memory hourly (omega arith) 100 15 token empty refl

is_session_token_valid-again_example :
    (is_session_token_valid memory hourly
      (110 + 15)
      token
      (memory.wait 15 (is_session_token_valid memory hourly 110 token used).1)).0
    ≡ (not (leb 20 15) && not (leb (100 + 60) (110 + 15)))
unfolding is_session_token_valid session_token_key redis_get
is_session_token_valid-again_example =
    is_session_token_valid-again memory hourly 110 100 15 token used (omega arith) refl refl refl

abbrev strict : AccessSettings
strict = record { window_seconds = 60; max_unauthenticated = 2; block_seconds = 30 }

-- A server at its limit of 2 ^ 63 - 1 milliseconds.
abbrev takes_expiry : ℕ → ℕ → Bool
takes_expiry now seconds = leb ((now + seconds) * 1000) 9223372036854775807

record_violations-fresh_example :
    let (replies, a) =
      record_violations takes_expiry strict
        (105 ∷ 110 ∷ [])
        (record { block = none; counter = record { hits = []; expires = none } }) in
    (replies ≡ ok (false, false) ∷ ok (false, false) ∷ [])
    × ((record_violation takes_expiry strict 120 a).0 ≡ ok (leb 2 2, false))
record_violations-fresh_example =
    record_violations-fresh takes_expiry strict 100 (105 ∷ 110 ∷ [])
      (omega arith, omega arith, (omega arith, omega arith, tt)) (omega arith) 120 (omega arith)

-- A block that has been doubled for long: it is doubled twice more, and then no more.
abbrev blocked_for_long : Address
blocked_for_long = record {
  block = some (1152921504606846, 145);
  counter = record { hits = []; expires = none };
}

record_violations-Insisting_example :
    let (replies, a) = record_violations takes_expiry strict (115 ∷ 150 ∷ []) blocked_for_long in
    (replies ≡ ok (true, true) ∷ ok (true, true) ∷ [])
    × (a ≡ record {
      block = some (4611686018427384, 4611686018427534);
      counter = blocked_for_long.counter;
    })
    × (record_violation takes_expiry strict 200 a ≡ (raised other, a))
record_violations-Insisting_example =
    record_violations-Insisting takes_expiry strict 1152921504606846 145 blocked_for_long.counter
      (115 ∷ 150 ∷ []) (omega arith, refl, (omega arith, refl, tt)) 200 (omega arith)
