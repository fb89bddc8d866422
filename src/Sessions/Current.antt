-- ===== src/Sessions/Current.antt =====
-- The session of the last login of a user: what finds it, and what a change of it leaves.
use remote_connect_backend.Base.{
  ℕ, ◌≡◌, ◌⊎◌, refl, ◌∙◌, ap, Bool, true, false, not, ◌&&◌, ◌||◌, Option, none, some, [], ◌∷◌, ◌++◌,
  arith, All, ltb, inl, inr, Option-cases, ◌==◌,
}
use remote_connect_backend.Base.Text.{Text, ◌≐◌, ≐_self}
use remote_connect_backend.Sessions.{
  UserSession, Sessions, is_active, get_active_session, get_session_by_token, find_session,
  is_taken, change_sessions, has_id,
}
use remote_connect_backend.Sessions.Rotation.{mentions, HasNo}

abbrev pub is_open_of : ℕ → UserSession → Bool
is_open_of user s = (s.user_id == user) && is_active s.status

-- A row with another id, without the token, and not a later login of the user.
pub record IsBeside (s r : UserSession) : Type 0 where
  pub other_id : (r.session_id ≐ s.session_id) ≡ false
  pub other_token : mentions s.session_token r ≡ false
  pub earlier : (not (is_open_of s.user_id r) || ltb r.login_datetime s.login_datetime) ≡ true

abbrev pub IsCurrent : UserSession → Sessions → Type 0
IsCurrent s [] = ⊥
IsCurrent s (r ∷ rest) = ((r ≡ s) × All (IsBeside s) rest) ⊎ (IsBeside s r × IsCurrent s rest)

-- No row is a login of the user as late as the time.
abbrev pub IsEarlier : ℕ → ℕ → Sessions → Type 0
IsEarlier user now = All (λ r. (not (is_open_of user r) || ltb r.login_datetime now) ≡ true)

-- The latest of some earlier logins is earlier.
abbrev is_before : Option UserSession → ℕ → Bool
is_before none now = true
is_before (some r) now = ltb r.login_datetime now

latest-earlier :
    (s : UserSession) (rows : Sessions)
    → All (IsBeside s) rows
    → is_before (get_active_session s.user_id rows) s.login_datetime ≡ true
unfolding get_active_session
latest-earlier s [] h = refl
latest-earlier s (r ∷ rest) h = elim (Option-cases (get_active_session s.user_id rest)) [
  | inl missing ↦ ground (arith, missing, h.0.earlier)
  | inr (l, there) ↦ ground (arith, there, h.0.earlier, latest-earlier s rest h.1)
]

pub get_active_session-IsCurrent :
    (s : UserSession) (rows : Sessions)
    → is_active s.status ≡ true
    → IsCurrent s rows
    → get_active_session s.user_id rows ≡ some s
unfolding get_active_session
get_active_session-IsCurrent s [] on h = absurd h
get_active_session-IsCurrent s (r ∷ rest) on (inl (same, others)) =
    ap (λ x. get_active_session s.user_id (x ∷ rest)) same
    ∙ (elim (Option-cases (get_active_session s.user_id rest)) [
      | inl missing ↦ ground (arith, missing, on)
      | inr (l, there) ↦ ground (arith, there, on, latest-earlier s rest others)
    ])
get_active_session-IsCurrent s (r ∷ rest) on (inr (other, current)) =
    ground (arith, other.earlier, get_active_session-IsCurrent s rest on current)

pub find_session-IsCurrent :
    (s : UserSession) (rows : Sessions) → IsCurrent s rows → find_session s.session_id rows ≡ some s
unfolding find_session
find_session-IsCurrent s [] h = absurd h
find_session-IsCurrent s (r ∷ rest) (inl (same, others)) =
    ap (λ x. find_session s.session_id (x ∷ rest)) same ∙ ground (arith, ≐_self s.session_id)
find_session-IsCurrent s (r ∷ rest) (inr (other, current)) =
    ground (arith, other.other_id, find_session-IsCurrent s rest current)

pub get_session_by_token-IsCurrent :
    (now : ℕ) (s : UserSession) (rows : Sessions)
    → IsCurrent s rows
    → get_session_by_token now s.session_token rows ≡ some s
unfolding get_session_by_token
get_session_by_token-IsCurrent now s [] h = absurd h
get_session_by_token-IsCurrent now s (r ∷ rest) (inl (same, others)) =
    ap (λ x. get_session_by_token now s.session_token (x ∷ rest)) same
    ∙ ground (arith, ≐_self s.session_token)
get_session_by_token-IsCurrent now s (r ∷ rest) (inr (other, current)) =
    ground (arith, other.other_token, get_session_by_token-IsCurrent now s rest current)

is_taken-beside :
    (s : UserSession) (rows : Sessions)
    → All (IsBeside s) rows
    → is_taken s.session_id s.session_token rows ≡ false
unfolding is_taken
is_taken-beside s [] h = refl
is_taken-beside s (r ∷ rest) h = ground (arith, h.0.other_token, is_taken-beside s rest h.1)

pub is_taken-IsCurrent :
    (s : UserSession) (rows : Sessions)
    → IsCurrent s rows
    → is_taken s.session_id s.session_token rows ≡ false
unfolding is_taken
is_taken-IsCurrent s [] h = absurd h
is_taken-IsCurrent s (r ∷ rest) (inl (same, others)) =
    ap (λ x. is_taken s.session_id s.session_token (x ∷ rest)) same
    ∙ ground (arith, ≐_self s.session_id, is_taken-beside s rest others)
is_taken-IsCurrent s (r ∷ rest) (inr (other, current)) =
    ground (arith, other.other_token, is_taken-IsCurrent s rest current)

pub change-HasNo :
    (id : Text) (f : UserSession → UserSession) (rows : Sessions)
    → HasNo id rows
    → change_sessions (has_id id) f rows ≡ rows
unfolding change_sessions
change-HasNo id f [] h = refl
change-HasNo id f (r ∷ rest) h = ground (arith, h.0, change-HasNo id f rest h.1)

HasNo-beside : (s : UserSession) (rows : Sessions) → All (IsBeside s) rows → HasNo s.session_id rows
HasNo-beside s [] h = tt
HasNo-beside s (r ∷ rest) h = (h.0.other_id, HasNo-beside s rest h.1)

-- A change of the row that keeps its token is found by the token.
pub get_session_by_token-change :
    (now : ℕ) (s : UserSession) (f : UserSession → UserSession) (rows : Sessions)
    → IsCurrent s rows
    → (f s).session_token ≡ s.session_token
    → get_session_by_token now s.session_token (change_sessions (has_id s.session_id) f rows)
      ≡ some (f s)
unfolding get_session_by_token change_sessions
get_session_by_token-change now s f [] h kept = absurd h
get_session_by_token-change now s f (r ∷ rest) (inl (same, others)) kept =
    ap
      (λ x.
        get_session_by_token now s.session_token
          (change_sessions (has_id s.session_id) f (x ∷ rest)))
      same
    ∙ ground (arith, ≐_self s.session_id, kept, ≐_self s.session_token)
get_session_by_token-change now s f (r ∷ rest) (inr (other, current)) kept = ground (
  arith,
  other.other_id,
  other.other_token,
  get_session_by_token-change now s f rest current kept,
)

-- A row that is put at the end.
pub append-IsCurrent :
    (s : UserSession) (rows : Sessions) → All (IsBeside s) rows → IsCurrent s (rows ++ s ∷ [])
append-IsCurrent s [] h = inl (refl, tt)
append-IsCurrent s (r ∷ rest) h = inr (h.0, append-IsCurrent s rest h.1)
