-- ===== src/Authentication/Lifecycle.antt =====
-- The token of a login, until the logout.
use remote_connect_backend.Base.{ℕ, ◌≡◌, refl, ◌∙◌, sym, ap, true, none, some, List, arith}
use remote_connect_backend.Base.Text.{Text}
use remote_connect_backend.Base.Action.{ok, raised, token_error}
use remote_connect_backend.Users.{User, get_by_id}
use remote_connect_backend.Sessions.{
  UserSession, Sessions, get_session_by_token, change_sessions, has_id,
}
use remote_connect_backend.Sessions.Logins.{LoginContext, record_login, ended, logout}
use remote_connect_backend.Sessions.Rotation.{IsUnused, HasNo}
use remote_connect_backend.Sessions.Current.{
  IsEarlier, get_session_by_token-IsCurrent, get_session_by_token-change,
}
use remote_connect_backend.Sessions.Lifecycle.{IsUnique, record_login-LoggedIn, logout-IsCurrent}
use remote_connect_backend.Authentication.{
  Payload, session_check, active_user, normal_user_check, found_user, authenticate_normal_user,
}

module _ (users : List User) (row : User) (payload : Payload)
    (there : get_by_id row.user_id users ≡ some row) (on : row.is_active ≡ true)
    (of_row : payload.sub ≡ some row.user_id) where
  user_there : active_user (found_user payload.sub users) ≡ some row
  user_there =
      ap (λ o. active_user (found_user o users)) of_row ∙ ap active_user there ∙ ground (arith, on)

  -- What an authentication comes to where the token finds a session.
  authenticate-found :
      (now : ℕ) (token : Text) (rows : Sessions) (s : UserSession)
      → get_session_by_token now token rows ≡ some s
      → authenticate_normal_user now token payload users rows ≡ session_check row payload (some s)
  unfolding authenticate_normal_user
  authenticate-found now token rows s found =
      ap (λ o. normal_user_check now token payload o rows) user_there
      ∙ ap (session_check row payload) found

  -- For an active user, where the ids of the sessions are distinct, the id of a new one is new, no row
  -- has the token and every other active login of the user is earlier: a login is recorded, the token
  -- then authenticates the user with the session at any time, and after the user's logout no more.
  pub record_login-logout :
      (now : ℕ) (id token : Text) (c : LoginContext) (rows : Sessions)
      → IsUnique rows
      → HasNo id rows
      → IsUnused token rows
      → IsEarlier row.user_id now rows
      → (t later u : ℕ)
      → let (r, rows1) = record_login now id row.user_id token c rows in
        let rows2 = (logout later row.user_id rows1).1 in
        (s : UserSession) × (r ≡ ok s)
        × (authenticate_normal_user t token payload users rows1
            ≡ ok (record { user = row; session = some s; payload = payload; impersonation = none }))
        × (authenticate_normal_user u token payload users rows2 ≡ raised token_error)
  record_login-logout now id token c rows unique new_id unused earlier t later u =
      let (s, recorded, of_user, of_token, is_on, current) =
        record_login-LoggedIn now id row.user_id token c rows unique new_id unused earlier in
      let rows1 = (record_login now id row.user_id token c rows).1 in
      let over =
        ap (λ i. (logout later i rows1).1) (sym of_user)
        ∙ ap (λ x. x.1) (logout-IsCurrent later s rows1 is_on current) in
      (
        s,
        recorded,
        ap (λ k. authenticate_normal_user t k payload users rows1) (sym of_token)
            ∙ authenticate-found t s.session_token rows1 s
                (get_session_by_token-IsCurrent t s rows1 current)
            ∙ ground (arith, is_on),
        ap (λ x. authenticate_normal_user u token payload users x) over
            ∙ ap
                (λ k.
                  authenticate_normal_user u k payload users
                    (change_sessions (has_id s.session_id) (ended later) rows1))
                (sym of_token)
            ∙ authenticate-found u s.session_token
                (change_sessions (has_id s.session_id) (ended later) rows1) (ended later s)
                (get_session_by_token-change u s (ended later) rows1 current refl),
      )
