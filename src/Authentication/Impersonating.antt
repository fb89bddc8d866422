-- ===== src/Authentication/Impersonating.antt =====
-- The token of an impersonation, from the start by its route to the logout by its route.
use remote_connect_backend.Base.{
  ℕ, zero, suc, ◌+◌, ◌<◌, ◌≡◌, refl, ◌∙◌, ap, true, false, Option, none, some, is_some, arith,
  if◌then◌else◌, ltb,
}
use remote_connect_backend.Base.Text.{Text}
use remote_connect_backend.Base.Action.{
  Result, ok, raised, token_error, pure, >>=-ok, >>=-preserves,
}
use remote_connect_backend.Redis.{Redis}
use remote_connect_backend.Users.{User, get_by_id}
use remote_connect_backend.Sessions.Devices.{is_empty}
use remote_connect_backend.Impersonation.Lock.{active_key, ActiveImpersonation}
use remote_connect_backend.Impersonation.World.{Info, explicit_logout}
use remote_connect_backend.Impersonation.Service.{
  new_impersonation, summary_of, build_impersonation_info,
}
use remote_connect_backend.Impersonation.Service.Starting.{
  Readable, is_free, IsNamed, started_world,
}
use remote_connect_backend.Impersonation.Service.Ending.{ended_world, ended_world-IsOver}
use remote_connect_backend.Impersonation.Requests.Lifecycle.{
  w', started, locked_later, logout-active, start_impersonation-logout,
}
use remote_connect_backend.Impersonation.Requests.Lifecycle
use remote_connect_backend.Authentication.{Payload, ImpersonationInfo, authenticate}
use remote_connect_backend.Authentication.ImpersonationToken.{
  payload_for, authenticated_as, authenticate-locked, authenticate-unlocked,
}
use remote_connect_backend.Authentication.Routes.{
  AppState, stores_of, on_world, positive_of, or_longest, start_route, reissue_admin_token,
  with_admin_token, logout_route,
}
use remote_connect_backend.Impersonation.Requests.{logout}

positive_of-some : (n : ℕ) → 0 < n → positive_of (some n) ≡ some n
positive_of-some zero pos = absurd (omega (arith, pos))
positive_of-some (suc n) pos = refl

module _ (redis : Redis) (lease : ℕ) (encode : Payload → Text) where
  open redis use {Server, get, wait, get-wait}

  abbrev pub later : ℕ → AppState Server → AppState Server
  later n st = record st { world = Lifecycle.after redis lease n st.world }

  with_admin_token-world :
      (t minutes : ℕ) (i : ImpersonationInfo) (id : Text) (st : AppState Server)
      → (with_admin_token redis lease encode t minutes i id st).1.world ≡ st.world
  unfolding reissue_admin_token
  with_admin_token-world t minutes i id st =
      >>=-preserves (λ x. x.world ≡ st.world)
        (reissue_admin_token redis lease encode t minutes i.admin_id i.admin_session_id)
        (λ token. pure (id, token)) st refl (λ token _. refl)

  module _ (lease_pos : 0 < lease) (longest now : ℕ) (id : Text) (admin target : ℕ) (ttl : Option ℕ)
      (session : Text) (o : Option ActiveImpersonation) (st : AppState Server)
      (readable : Readable redis lease o st.world.server)
      (free : is_free redis lease st.world.server ≡ true) (named : IsNamed st.world.holder) where
    abbrev pub begun : ActiveImpersonation
    begun = new_impersonation longest now id admin target (or_longest (positive_of ttl) longest)

    abbrev st' : AppState Server
    st' = record st {
      world =
          w' redis lease lease_pos longest now id admin target
            (or_longest (positive_of ttl) longest) o st.world readable free named;
    }

    start_route-started :
        (u : User)
        → 0 < target
        → get_by_id target st.world.users ≡ some u
        → (info : Info) × (start_route redis lease encode true true true longest now id admin
              (some session)
              (some target)
              ttl
              st
            ≡ (ok ((info, is_some o), encode (payload_for begun now session)), st'))
    unfolding start_route build_impersonation_info summary_of
    start_route-started u target_pos there =
        let s =
          started redis lease lease_pos longest now id admin target
            (or_longest (positive_of ttl) longest) o st.world readable free named in
        (
          build_impersonation_info redis lease now begun st.world.sandbox (some now) st'.world,
          ground (arith, positive_of-some target target_pos, there, s),
        )

    logout_route-ended :
        (at t minutes : ℕ)
        → at < begun.ttl_seconds
        → let info : ImpersonationInfo = record {
          admin_id = admin;
          impersonation_id = id;
          admin_session_id = session;
        } in
          (logout_route redis lease encode true true t minutes (some info) (later at st')).1.world
          ≡ ended_world redis lease t begun explicit_logout (later at st').world
    unfolding logout_route
    logout_route-ended at t minutes within =
        let here =
          locked_later redis lease lease_pos longest now id admin target
            (or_longest (positive_of ttl) longest) o st.world readable free named at within in
        let info : ImpersonationInfo = record {
          admin_id = admin;
          impersonation_id = id;
          admin_session_id = session;
        } in
        let over : AppState Server = record (later at st') {
          world = ended_world redis lease t begun explicit_logout (later at st').world;
        } in
        ap (λ x. x.1.world)
          (>>=-ok (on_world (logout redis lease true t id admin))
            (with_admin_token redis lease encode t minutes info) (later at st') over id
            (ap (λ x. (x.0, record (later at st') { world = x.1 }))
              (logout-active redis lease t begun (later at st').world here)))
        ∙ with_admin_token-world t minutes info id over

    module _ (decode : ℕ → Text → Option Payload) (v u : User) where
      abbrev token : Text
      token = encode (payload_for begun now session)

      -- An admin starts an impersonation of an active user by the route, where the lock is free and
      -- readable, the worker's session can be taken, the ids are not empty, and a token decodes to its
      -- payload exactly until it expires. The route replies with a token, which authenticates its bearer
      -- as that user at any time in the life of the impersonation. Once the logout's route has been
      -- called in it, the token is refused at any time.
      pub start_route-authenticates :
          is_empty id ≡ false
          → is_empty session ≡ false
          → 0 < target
          → get_by_id admin st.world.users ≡ some v
          → v.is_admin ≡ true
          → get_by_id target st.world.users ≡ some u
          → u.is_active ≡ true
          → ((t : ℕ)
              → decode t token ≡ (
                  if ltb t (now + begun.ttl_seconds)
                  then some (payload_for begun now session)
                  else none))
          → (n m t minutes : ℕ) → n < begun.ttl_seconds
          → let (r, st1) =
              start_route redis lease encode true true true longest now id admin
                (some session)
                (some target)
                ttl
                st in
            let st2 =
              (logout_route redis lease encode true true
                (now + n)
                minutes
                (some
                  (record { admin_id = admin; impersonation_id = id; admin_session_id = session }))
                (later n st1)).1 in
            ((info : Info) × (r ≡ ok ((info, is_some o), token)))
            × ((authenticate redis lease decode true
                  (now + n)
                  token
                  (some id)
                  (stores_of (later n st1))).0
                ≡ ok (authenticated_as begun now session u))
            × ((authenticate redis lease decode true t token (some id) (stores_of (later m st2))).0
                ≡ raised token_error)
      unfolding started_world
      start_route-authenticates id_given session_given target_pos admin_there is_admin target_there
            on decoded n m t minutes within =
          let (info, begins) = start_route-started u target_pos target_there in
          let here =
            locked_later redis lease lease_pos longest now id admin target
              (or_longest (positive_of ttl) longest) o st.world readable free named n within in
          let ended = ended_world redis lease (now + n) begun explicit_logout (later n st').world in
          let gone : get ended.server active_key ≡ none =
            (ended_world-IsOver redis lease (now + n) begun explicit_logout
              (later n st').world).no_active in
          let unlocked : get (wait m ended.server) active_key ≡ none =
            get-wait m ended.server active_key ∙ ground (arith, gone) in
          let signed_out : AppState Server → Result (Text × Option Text) × AppState Server = λ x.
            logout_route redis lease encode true true (now + n) minutes
              (some
                (record { admin_id = admin; impersonation_id = id; admin_session_id = session }))
              (later n x) in
          let world_after = logout_route-ended n (now + n) minutes within in
          (
            (info, ap (λ x. x.0) begins),
            ap
                  (λ x.
                    (authenticate redis lease decode true (now + n) token (some id)
                      (stores_of (later n x.1))).0)
                  begins
                ∙ authenticate-locked redis lease decode begun now session token id_given
                    session_given (now + n) (stores_of (later n st')) v u
                    (decoded (now + n) ∙ ground (arith, within)) here admin_there is_admin
                    target_there on,
            ap
                  (λ x.
                    (authenticate redis lease decode true t token (some id)
                      (stores_of (later m (signed_out x.1).1))).0)
                  begins
                ∙ authenticate-unlocked redis lease decode begun now session token id_given
                    session_given t (stores_of (later m (signed_out st').1))
                    (ltb t (now + begun.ttl_seconds)) (decoded t)
                    (ap (λ w. get (wait m w.server) active_key) world_after ∙ unlocked),
          )
