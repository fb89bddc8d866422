-- ===== src/Impersonation/Trail/Events.antt =====
-- What the audit shows after any events.
use remote_connect_backend.Base.{ℕ, List, [], ◌∷◌}
use remote_connect_backend.Base.Action.{pure, ◌>>=◌, ◌>>◌}
use remote_connect_backend.Redis.{Redis}
use remote_connect_backend.Impersonation.World.{
  force_ended_by_admin, explicit_logout, World, find_record,
}
use remote_connect_backend.Impersonation.Service.{
  get_active, end_impersonation, new_impersonation, start_impersonation,
}
use remote_connect_backend.Impersonation.Requests.{
  check_ownership, update_handler, adjust_handler, info_handler, flushed, informed, adjusted,
  upserted, update_record, adjust_record, get_impersonation_info, of_admin, status_of,
  get_impersonation_status_for_admin, force_end_impersonation, logout,
}
use remote_connect_backend.Impersonation.Trail.{IsAudited, >>=-Keeps}
use remote_connect_backend.Impersonation.Trail.Operations.{
  end_impersonation-Keeps, cleanup-Keeps, start_as-Keeps,
}
use remote_connect_backend.Impersonation.Events.{
  Event, started, verified_by, updated, adjusted_by, asked, asked_by_admin, force_ended, logged_out,
  cleaned, passed, step, run,
}
use remote_connect_backend.Impersonation.Trail.Requests.{
  check_ownership-Keeps, verify-Keeps, update_handler-Keeps, adjust_handler-Keeps,
  info_handler-Keeps, written-Keeps, adjusted-Keeps, request-Keeps, of_admin-Keeps, status_of-Keeps,
}

module _ (redis : Redis) (lease : ℕ) where
  open redis use {Server}

  step-IsAudited : (e : Event) (w : World Server) → IsAudited w → IsAudited (step redis lease e w)
  unfolding step start_impersonation update_record adjust_record get_impersonation_info
      get_impersonation_status_for_admin force_end_impersonation logout
  step-IsAudited (started cleanup_free free longest now id admin target ttl) w v =
      start_as-Keeps redis lease cleanup_free free now
        (new_impersonation longest now id admin target ttl) w v
  step-IsAudited (verified_by free now id admin) w v =
      verify-Keeps redis lease free now id admin w v
  step-IsAudited (updated free now id admin name value flush) w v =
      request-Keeps redis lease free now id admin
        (λ a x.
          flushed redis lease flush (upserted redis lease name value x.0)
          >> informed redis lease now a (upserted redis lease name value x.0) x.1)
        (λ a. update_handler redis lease free now a)
        (λ a x. written-Keeps redis lease now a flush (upserted redis lease name value x.0) x.1)
        (λ a. update_handler-Keeps redis lease free now a) w v
  step-IsAudited (adjusted_by free now id admin name delta flush) w v =
      request-Keeps redis lease free now id admin
        (λ a x. adjusted redis lease now a name delta flush x.1 x.0 (find_record name x.0))
        (λ a. adjust_handler redis lease free now a)
        (λ a x. adjusted-Keeps redis lease now a name delta flush x.1 x.0 (find_record name x.0))
        (λ a. adjust_handler-Keeps redis lease free now a) w v
  step-IsAudited (asked free now id admin) w v =
      request-Keeps redis lease free now id admin (λ a x. informed redis lease now a x.0 x.1)
        (λ a. info_handler redis lease free now a) (λ a x u k. k)
        (λ a. info_handler-Keeps redis lease free now a) w v
  step-IsAudited (asked_by_admin free now admin) w v =
      >>=-Keeps (get_active redis lease >>= of_admin redis lease admin)
        (status_of redis lease free now)
        (>>=-Keeps (get_active redis lease) (of_admin redis lease admin) (λ u k. k)
          (of_admin-Keeps redis lease admin))
        (status_of-Keeps redis lease free now) w v
  step-IsAudited (force_ended free now admin) w v =
      >>=-Keeps (get_active redis lease >>= of_admin redis lease admin)
        (λ a.
          end_impersonation redis lease free now a force_ended_by_admin >> pure a.impersonation_id)
        (>>=-Keeps (get_active redis lease) (of_admin redis lease admin) (λ u k. k)
          (of_admin-Keeps redis lease admin))
        (λ a.
          >>=-Keeps (end_impersonation redis lease free now a force_ended_by_admin)
            (λ _. pure a.impersonation_id)
            (end_impersonation-Keeps redis lease free now a force_ended_by_admin) (λ _ u k. k))
        w v
  step-IsAudited (logged_out free now id admin) w v =
      >>=-Keeps (check_ownership redis lease id admin)
        (λ a. end_impersonation redis lease free now a explicit_logout >> pure id)
        (check_ownership-Keeps redis lease id admin)
        (λ a.
          >>=-Keeps (end_impersonation redis lease free now a explicit_logout) (λ _. pure id)
            (end_impersonation-Keeps redis lease free now a explicit_logout) (λ _ u k. k))
        w v
  step-IsAudited (cleaned free) w v = cleanup-Keeps redis lease free w v
  step-IsAudited (passed n) w v = record { audited = v.audited; named = v.named }

  -- Along any requests, failing flushes of the worker's session and passing of time, where the writes of
  -- the audit succeed, from a state in which it is so: the worker holds a session exactly where it has
  -- an id for it, and the audit of that id is active.
  pub run-IsAudited :
      (es : List Event) (w : World Server) → IsAudited w → IsAudited (run redis lease es w)
  unfolding run
  run-IsAudited [] w v = v
  run-IsAudited (e ∷ es) w v = run-IsAudited es (step redis lease e w) (step-IsAudited e w v)
