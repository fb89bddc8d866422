-- ===== src/Sessions/Lifecycle.antt =====
-- A login and the logout after it.
use remote_connect_backend.Base.{
  ℕ, ◌≡◌, ◌⊎◌, refl, ◌∙◌, sym, subst, ap, false, Option, none, some, [], ◌∷◌, ◌++◌, arith,
  if◌then◌else◌, All, ltb, Bool-cases, inl, inr, Option-cases, if_cases,
}
use remote_connect_backend.Base.Text.{Text, ◌≐◌, ≐_self, ≐_comm}
use remote_connect_backend.Base.Action.{Result, ok}
use remote_connect_backend.Sessions.{
  active, UserSession, Sessions, is_active, get_active_session, find_session, change_sessions,
  has_id, create_user_session, updated, update_user_session,
}
use remote_connect_backend.Sessions.Logins.{
  LoginContext, client_of, same_client, logged_in, new_session, login_over, record_login, ended,
  logout_of, logout,
}
use remote_connect_backend.Sessions.Rotation.{IsUnused, HasNo, IsSole, is_taken-IsUnused}
use remote_connect_backend.Sessions.Current.{
  is_open_of, IsBeside, IsCurrent, IsEarlier, get_active_session-IsCurrent, find_session-IsCurrent,
  is_taken-IsCurrent, change-HasNo, append-IsCurrent,
}

-- The primary key.
abbrev pub IsUnique : Sessions → Type 0
IsUnique [] = Unit
IsUnique (r ∷ rest) = HasNo r.session_id rest × IsUnique rest

beside :
    (s : UserSession) (rows : Sessions)
    → HasNo s.session_id rows
    → IsUnused s.session_token rows
    → IsEarlier s.user_id s.login_datetime rows
    → All (IsBeside s) rows
beside s [] ids unused earlier = tt
beside s (r ∷ rest) ids unused earlier = (
  record { other_id = ids.0; other_token = unused.0; earlier = earlier.0 },
  beside s rest ids.1 unused.1 earlier.1,
)

HasNo-sole :
    (id : Text) (l : UserSession) (rows : Sessions)
    → HasNo id rows
    → IsSole l rows
    → (l.session_id ≐ id) ≡ false
HasNo-sole id l [] ids sole = absurd sole
HasNo-sole id l (r ∷ rest) ids (inl (same, others)) = ap (λ x. x.session_id ≐ id) (sym same) ∙ ids.0
HasNo-sole id l (r ∷ rest) ids (inr (other, sole)) = HasNo-sole id l rest ids.1 sole

find-sole :
    (l : UserSession) (rows : Sessions) → IsSole l rows → find_session l.session_id rows ≡ some l
unfolding find_session
find-sole l [] sole = absurd sole
find-sole l (r ∷ rest) (inl (same, others)) =
    ap (λ x. find_session l.session_id (x ∷ rest)) same ∙ ground (arith, ≐_self l.session_id)
find-sole l (r ∷ rest) (inr (other, sole)) = ground (arith, other, find-sole l rest sole)

head_or_rest :
    (user : ℕ) (r : UserSession) (rest : Sessions)
    → (get_active_session user (r ∷ rest) ≡ some r)
      ⊎ (get_active_session user (r ∷ rest) ≡ get_active_session user rest)
unfolding get_active_session
head_or_rest user r rest = elim (Bool-cases (is_open_of user r)) [
  | inr shut ↦ inr (ground (arith, shut))
  | inl on ↦ elim (Option-cases (get_active_session user rest)) [
    | inl missing ↦ inl (ground (arith, on, missing))
    | inr (l, there) ↦ elim (Bool-cases (ltb r.login_datetime l.login_datetime)) [
      | inl older ↦ inr (ground (arith, on, there, older))
      | inr newer ↦ inl (ground (arith, on, there, newer))
    ]
  ]
]

-- The latest session of a user is a row, the only one with its id.
found-IsSole :
    (user : ℕ) (l : UserSession) (rows : Sessions)
    → IsUnique rows
    → get_active_session user rows ≡ some l
    → IsSole l rows
unfolding get_active_session
found-IsSole user l [] unique h = absurd (ground arith)
found-IsSole user l (r ∷ rest) unique h = elim (head_or_rest user r rest) [
  | inl first ↦
      let same : r ≡ l = ground (arith, first, h) in
      inl (same, subst (λ x. HasNo x.session_id rest) same unique.0)
  | inr later ↦
      let sole = found-IsSole user l rest unique.1 (sym later ∙ h) in
      inr (≐_comm r.session_id l.session_id ∙ HasNo-sole r.session_id l rest unique.0 sole, sole)
]

-- A login over a row.
change-IsCurrent :
    (l : UserSession) (f : UserSession → UserSession) (rows : Sessions)
    → IsSole l rows
    → (f l).session_id ≡ l.session_id
    → IsUnused (f l).session_token rows
    → IsEarlier (f l).user_id (f l).login_datetime rows
    → IsCurrent (f l) (change_sessions (has_id l.session_id) f rows)
unfolding change_sessions
change-IsCurrent l f [] sole kept unused earlier = absurd sole
change-IsCurrent l f (r ∷ rest) (inl (same, others)) kept unused earlier = inl (
  ap (λ x. if has_id l.session_id x then f x else x) same ∙ ground (arith, ≐_self l.session_id),
  subst (All (IsBeside (f l))) (sym (change-HasNo l.session_id f rest others))
      (beside (f l) rest (subst (λ i. HasNo i rest) (sym kept) others) unused.1 earlier.1),
)
change-IsCurrent l f (r ∷ rest) (inr (other, sole)) kept unused earlier = inr (
  subst (λ b. IsBeside (f l) (if b then f r else r)) (sym other)
      (record {
        other_id = ap (λ i. r.session_id ≐ i) kept ∙ other;
        other_token = unused.0;
        earlier = earlier.0;
      }),
  change-IsCurrent l f rest sole kept unused.1 earlier.1,
)

module _ (now : ℕ) (id : Text) (user : ℕ) (token : Text) (c : LoginContext) (rows : Sessions)
    (unique : IsUnique rows) (new_id : HasNo id rows) (unused : IsUnused token rows)
    (earlier : IsEarlier user now rows) where
  -- What a login leaves: the row that it returns is the current one of the user.
  abbrev LoggedIn : Result UserSession × Sessions → Type 0
  LoggedIn x =
      (s : UserSession) × (x.0 ≡ ok s)
      × (s.user_id ≡ user)
      × (s.session_token ≡ token)
      × (s.status ≡ active)
      × IsCurrent s x.1

  create-LoggedIn : LoggedIn (create_user_session (new_session now id user token c) rows)
  unfolding create_user_session new_session
  create-LoggedIn =
      let s : UserSession = new_session now id user token c in
      let done : create_user_session s rows ≡ (ok s, rows ++ s ∷ []) =
        ground (arith, is_taken-IsUnused id token rows unused) in
      subst LoggedIn (sym done)
        (s, refl, refl, refl, refl, append-IsCurrent s rows (beside s rows new_id unused earlier))

  update-LoggedIn :
      (l : UserSession)
      → IsSole l rows
      → LoggedIn (update_user_session l.session_id (logged_in now user token c) rows)
  unfolding update_user_session
  update-LoggedIn l sole =
      let f = logged_in now user token c in
      let rows' = change_sessions (has_id l.session_id) f rows in
      let done : updated l.session_id f (some l) rows ≡ (ok (f l), rows') =
        ground (arith, is_taken-IsUnused l.session_id token rows unused) in
      let found = ap (λ o. updated l.session_id f o rows) (find-sole l rows sole) in
      subst LoggedIn (sym (found ∙ done))
        (f l, refl, refl, refl, refl, change-IsCurrent l f rows sole refl unused earlier)

  login_over-LoggedIn :
      (o : Option UserSession)
      → get_active_session user rows ≡ o
      → LoggedIn (login_over now id user token c o rows)
  login_over-LoggedIn none e = create-LoggedIn
  login_over-LoggedIn (some l) e =
      if_cases LoggedIn (same_client l.client (client_of c))
        (update_user_session l.session_id (logged_in now user token c) rows)
        (create_user_session (new_session now id user token c) rows)
        (λ _. update-LoggedIn l (found-IsSole user l rows unique e)) (λ _. create-LoggedIn)

  pub record_login-LoggedIn : LoggedIn (record_login now id user token c rows)
  unfolding record_login
  record_login-LoggedIn = login_over-LoggedIn (get_active_session user rows) refl

-- A logout of the user of the current row ends that row.
pub logout-IsCurrent :
    (later : ℕ) (s : UserSession) (rows : Sessions)
    → s.status ≡ active
    → IsCurrent s rows
    → logout later s.user_id rows
      ≡ (ok (ended later s), change_sessions (has_id s.session_id) (ended later) rows)
unfolding logout update_user_session
logout-IsCurrent later s rows on current =
    ap (λ o. logout_of later o rows) (get_active_session-IsCurrent s rows (ap is_active on) current)
    ∙ ap (λ o. updated s.session_id (ended later) o rows) (find_session-IsCurrent s rows current)
    ∙ ground (arith, is_taken-IsCurrent s rows current)
