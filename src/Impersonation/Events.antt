-- ===== src/Impersonation/Events.antt =====
-- The requests to the impersonation service and the passing of time as events.
use remote_connect_backend.Base.{ℕ, Bool, List, [], ◌∷◌}
use remote_connect_backend.Base.Text.{Text}
use remote_connect_backend.Base.Int.{ℤ}
use remote_connect_backend.Base.Action.{Result}
use remote_connect_backend.Redis.{Redis}
use remote_connect_backend.Impersonation.World.{World}
use remote_connect_backend.Impersonation.Service.{cleanup_stale_session, start_impersonation}
use remote_connect_backend.Impersonation.Requests.{
  verify_impersonation, update_record, adjust_record, get_impersonation_info,
  get_impersonation_status_for_admin, force_end_impersonation, logout,
}

-- Each event has what the environment decides, the time and the arguments of the request.
pub data Event : Type 0 where
  started : Bool → Bool → ℕ → ℕ → Text → ℕ → ℕ → ℕ → Event
  verified_by : Bool → ℕ → Text → ℕ → Event
  updated : Bool → ℕ → Text → ℕ → Text → ℤ → Result (Unit {0}) → Event
  adjusted_by : Bool → ℕ → Text → ℕ → Text → ℤ → Result (Unit {0}) → Event
  asked : Bool → ℕ → Text → ℕ → Event
  asked_by_admin : Bool → ℕ → ℕ → Event
  force_ended : Bool → ℕ → ℕ → Event
  logged_out : Bool → ℕ → Text → ℕ → Event
  cleaned : Bool → Event
  passed : ℕ → Event

module _ (redis : Redis) (lease : ℕ) where
  open redis use {Server, wait}

  unfoldable pub step : Event → World Server → World Server
  step (started cleanup_free free longest now id admin target ttl) w =
      (start_impersonation redis lease cleanup_free free longest now id admin target ttl w).1
  step (verified_by free now id admin) w = (verify_impersonation redis lease free now id admin w).1
  step (updated free now id admin name value flush) w =
      (update_record redis lease free now id admin name value flush w).1
  step (adjusted_by free now id admin name delta flush) w =
      (adjust_record redis lease free now id admin name delta flush w).1
  step (asked free now id admin) w = (get_impersonation_info redis lease free now id admin w).1
  step (asked_by_admin free now admin) w =
      (get_impersonation_status_for_admin redis lease free now admin w).1
  step (force_ended free now admin) w = (force_end_impersonation redis lease free now admin w).1
  step (logged_out free now id admin) w = (logout redis lease free now id admin w).1
  step (cleaned free) w = (cleanup_stale_session redis lease free w).1
  step (passed n) w = record w { server = wait n w.server }

  unfoldable pub run : List Event → World Server → World Server
  run [] w = w
  run (e ∷ es) w = run es (step e w)
