-- ===== src/Authentication/Admission.antt =====
-- Which requests reach their handler, and as whom.
use remote_connect_backend.Base.{
  ℕ, ◌≡◌, ◌⊎◌, refl, ◌∙◌, sym, subst, true, false, Option, none, some, List, arith, if◌then◌else◌,
  Bool-cases, inl, inr, Option-cases,
}
use remote_connect_backend.Base.Text.{Text}
use remote_connect_backend.Base.Action.{Exn, Result, ok, raised, token_error, ◌>>=◌}
use remote_connect_backend.Redis.{Redis}
use remote_connect_backend.Users.{User, get_by_id}
use remote_connect_backend.Sessions.{UserSession, Sessions, get_session_by_token}
use remote_connect_backend.Sessions.Devices.{given}
use remote_connect_backend.Impersonation.Lock.{ActiveImpersonation, get_active_impersonation}
use remote_connect_backend.Authentication.{
  Payload, AuthenticatedSession, get_active, is_logged_out, active_user, admin_user, found_user,
  authenticate_normal_user, Claims, claims_of, is_header, is_claimed, impersonated_session,
  users_check, active_check, claims_check, authenticate_impersonation,
}

-- A user's own authentication: the user is there and active, and the token is that of a session which
-- is not logged out.
pub record IsOwn (now : ℕ) (token : Text) (users : List User) (sessions : Sessions)
    (a : AuthenticatedSession) : Type 0 where
  pub not_impersonated : a.payload.impersonated ≡ false
  pub user_found : found_user a.payload.sub users ≡ some a.user
  pub user_active : a.user.is_active ≡ true
  pub session_found : get_session_by_token now token sessions ≡ a.session
  pub session_live : (s : UserSession) × (a.session ≡ some s) × (is_logged_out s.status ≡ false)
  pub no_impersonation : a.impersonation ≡ none

active_user-some :
    (o : Option User) (u : User) → active_user o ≡ some u → (o ≡ some u) × (u.is_active ≡ true)
active_user-some none u h = absurd (ground arith)
active_user-some (some v) u h = elim (Bool-cases v.is_active) [
  | inl on ↦
      let same : some v ≡ some u = sym (ground (arith, on)) ∙ h in (same, ground (arith, same, on))
  | inr off ↦ absurd (ground (arith, off, h))
]

admin_user-some :
    (o : Option User) (u : User) → admin_user o ≡ some u → (o ≡ some u) × (u.is_admin ≡ true)
admin_user-some none u h = absurd (ground arith)
admin_user-some (some v) u h = elim (Bool-cases v.is_admin) [
  | inl on ↦
      let same : some v ≡ some u = sym (ground (arith, on)) ∙ h in (same, ground (arith, same, on))
  | inr off ↦ absurd (ground (arith, off, h))
]

pub authenticate_normal_user-cases :
    (now : ℕ) (token : Text) (payload : Payload) (users : List User) (sessions : Sessions)
    → payload.impersonated ≡ false
    → (authenticate_normal_user now token payload users sessions ≡ raised token_error)
      ⊎ ((a : AuthenticatedSession) × (authenticate_normal_user now token payload users sessions
            ≡ ok a)
          × (a.payload ≡ payload)
          × IsOwn now token users sessions a)
unfolding authenticate_normal_user
authenticate_normal_user-cases now token payload users sessions own =
    elim (Option-cases (active_user (found_user payload.sub users))) [
      | inl nobody ↦ inl (ground (arith, nobody))
      | inr (u, there) ↦
          let found = active_user-some (found_user payload.sub users) u there in
          elim (Option-cases (get_session_by_token now token sessions)) [
            | inl no_session ↦ inl (ground (arith, there, no_session))
            | inr (s, held) ↦ elim (Bool-cases (is_logged_out s.status)) [
              | inl over ↦ inl (ground (arith, there, held, over))
              | inr live ↦ inr (
                record { user = u; session = some s; payload = payload; impersonation = none },
                ground (arith, there, held, live),
                refl,
                record {
                  not_impersonated = own;
                  user_found = found.0;
                  user_active = found.1;
                  session_found = held;
                  session_live = (s, refl, live);
                  no_impersonation = refl;
                },
              )
            ]
          ]
    ]

module _ (redis : Redis) (lease : ℕ) where
  open redis use {Server}

  -- An authentication by an impersonation token: the impersonation of the header is the active one, its
  -- admin is an administrator still, and its target is there and active.
  pub record IsImpersonated (header : Option Text) (users : List User) (s : Server)
      (a : AuthenticatedSession) : Type 0 where
    pub by_token : a.payload.impersonated ≡ true
    pub claims : Claims
    pub claimed : claims_of a.payload ≡ some claims
    pub in_header : is_header (given header) claims.claimed_id ≡ true
    pub impersonation : ActiveImpersonation
    pub is_active : get_active_impersonation redis lease s ≡ ok (some impersonation)
    pub same : is_claimed claims (some impersonation) ≡ true
    pub admin : User
    pub admin_found : get_by_id claims.claimed_admin users ≡ some admin
    pub admin_is_admin : admin.is_admin ≡ true
    pub target_found : get_by_id claims.claimed_target users ≡ some a.user
    pub target_active : a.user.is_active ≡ true
    pub as_claimed : a ≡ impersonated_session claims a.payload a.user

  -- What the checks after the claims come to.
  Checked :
      Claims
      → Payload
      → List User
      → Option Text
      → Server
      → Result AuthenticatedSession × Server
      → Type 0
  Checked c payload users header s x =
      ((e : Exn) × (x ≡ (raised e, s)))
      ⊎ ((a : AuthenticatedSession) × (x.0 ≡ ok a)
          × (a.payload ≡ payload)
          × IsImpersonated header users s a)

  module _ (c : Claims) (payload : Payload) (users : List User) (header : Option Text) (s : Server)
      (by_token : payload.impersonated ≡ true) (claimed : claims_of payload ≡ some c)
      (alike : is_header (given header) c.claimed_id ≡ true) where
    users_check-Checked :
        (i : ActiveImpersonation)
        → get_active_impersonation redis lease s ≡ ok (some i)
        → is_claimed c (some i) ≡ true
        → (admin target : Option User) → admin_user (get_by_id c.claimed_admin users) ≡ admin
        → active_user (get_by_id c.claimed_target users) ≡ target
        → Checked c payload users header s (users_check redis lease c payload admin target s)
    unfolding Checked
    users_check-Checked i active same none target no_admin e = inl (token_error, refl)
    users_check-Checked i active same (some admin) none e no_target = inl (token_error, refl)
    users_check-Checked i active same (some admin) (some target) e f =
        let admin_there = admin_user-some (get_by_id c.claimed_admin users) admin e in
        let target_there = active_user-some (get_by_id c.claimed_target users) target f in
        inr (
          impersonated_session c payload target,
          refl,
          refl,
          record {
            by_token = by_token;
            claims = c;
            claimed = claimed;
            in_header = alike;
            impersonation = i;
            is_active = active;
            same = same;
            admin = admin;
            admin_found = admin_there.0;
            admin_is_admin = admin_there.1;
            target_found = target_there.0;
            target_active = target_there.1;
            as_claimed = refl;
          },
        )

    active_check-Checked :
        (o : Option ActiveImpersonation)
        → get_active_impersonation redis lease s ≡ ok o
        → Checked c payload users header s (active_check redis lease c payload users o s)
    unfolding Checked
    active_check-Checked none active = inl (token_error, refl)
    active_check-Checked (some i) active = elim (Bool-cases (is_claimed c (some i))) [
      | inr unlike ↦ inl (token_error, ground (arith, unlike))
      | inl same ↦
          let admin = admin_user (get_by_id c.claimed_admin users) in
          let target = active_user (get_by_id c.claimed_target users) in
          subst
            (λ b. Checked c payload users header s (
              if b
              then users_check redis lease c payload admin target s
              else (raised token_error, s)))
            (sym same) (users_check-Checked i active same admin target refl refl)
    ]

    get_active-Checked :
        (r : Result (Option ActiveImpersonation))
        → get_active_impersonation redis lease s ≡ r
        → Checked c payload users header s (elim r as (λ _. Result AuthenticatedSession × Server) [
          | ok o ↦ active_check redis lease c payload users o s
          | raised e ↦ (raised e, s)
        ])
    unfolding Checked
    get_active-Checked (ok o) active = active_check-Checked o active
    get_active-Checked (raised e) active = inl (e, refl)

    claims_check-Checked :
        Checked c payload users header s (claims_check redis lease header payload users (some c) s)
    claims_check-Checked =
        subst
          (λ b. Checked c payload users header s (
            if b
            then (get_active redis lease >>= active_check redis lease c payload users) s
            else (raised token_error, s)))
          (sym alike) (get_active-Checked (get_active_impersonation redis lease s) refl)

  pub authenticate_impersonation-cases :
      (payload : Payload) (users : List User) (header : Option Text) (s : Server)
      → payload.impersonated ≡ true
      → let x = authenticate_impersonation redis lease true payload users header s in
        ((e : Exn) × (x ≡ (raised e, s)))
        ⊎ ((a : AuthenticatedSession) × (x.0 ≡ ok a)
            × (a.payload ≡ payload)
            × IsImpersonated header users s a)
  unfolding authenticate_impersonation Checked
  authenticate_impersonation-cases payload users header s by_token =
      elim (Option-cases (claims_of payload)) [
        | inl missing ↦ inl (token_error, ground (arith, missing))
        | inr (c, claimed) ↦ elim (Bool-cases (is_header (given header) c.claimed_id)) [
          | inr unlike ↦ inl (token_error, ground (arith, claimed, unlike))
          | inl alike ↦
              subst
                (λ o.
                  Checked c payload users header s
                    (claims_check redis lease header payload users o s))
                (sym claimed) (claims_check-Checked c payload users header s by_token claimed alike)
        ]
      ]
