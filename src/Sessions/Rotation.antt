-- ===== src/Sessions/Rotation.antt =====
-- Which tokens a session answers to after its token is replaced.
use remote_connect_backend.Base.{
  ℕ, ◌+◌, ◌≡◌, ◌⊎◌, refl, ◌∙◌, sym, subst, ap, Bool, true, false, not, ◌||◌, none, some, [], ◌∷◌,
  arith, if◌then◌else◌, All, ltb, inl, inr,
}
use remote_connect_backend.Base.Text.{Text, ◌≐◌, ≐_self, ≐_iff}
use remote_connect_backend.Base.Action.{ok}
use remote_connect_backend.Sessions.{
  UserSession, Sessions, is_text, get_session_by_token, is_taken, change_sessions, count_sessions,
  rotated, holds_token, rotate_session_token,
}

abbrev pub mentions : Text → UserSession → Bool
mentions t s = s.session_token ≐ t || is_text s.previous_session_token t

-- No row has the token, now or as its previous one.
abbrev pub IsUnused : Text → Sessions → Type 0
IsUnused t = All (λ s. mentions t s ≡ false)

-- No row but the one with the id has the token.
abbrev pub IsOwnToken : Text → Text → Sessions → Type 0
IsOwnToken id t = All (λ s. ((s.session_id ≐ id) || not (mentions t s)) ≡ true)

abbrev pub HasNo : Text → Sessions → Type 0
HasNo id = All (λ s. (s.session_id ≐ id) ≡ false)

-- The row is the only one with its id.
abbrev pub IsSole : UserSession → Sessions → Type 0
IsSole s [] = ⊥
IsSole s (r ∷ rest) =
    ((r ≡ s) × HasNo s.session_id rest) ⊎ (((r.session_id ≐ s.session_id) ≡ false) × IsSole s rest)

change_sessions-HasNo :
    (id old : Text) (f : UserSession → UserSession) (rows : Sessions)
    → HasNo id rows
    → (change_sessions (holds_token id old) f rows ≡ rows)
      × (count_sessions (holds_token id old) rows ≡ 0)
unfolding change_sessions count_sessions
change_sessions-HasNo id old f [] h = (refl, refl)
change_sessions-HasNo id old f (s ∷ rest) h =
    let (same, none_there) = change_sessions-HasNo id old f rest h.1 in
    (ground (arith, h.0, same), ground (arith, h.0, none_there))

get-IsUnused :
    (now : ℕ) (t : Text) (rows : Sessions)
    → IsUnused t rows
    → get_session_by_token now t rows ≡ none
unfolding get_session_by_token
get-IsUnused now t [] h = refl
get-IsUnused now t (s ∷ rest) h = ground (arith, h.0, get-IsUnused now t rest h.1)

get-IsOwnToken :
    (now : ℕ) (id t : Text) (rows : Sessions)
    → HasNo id rows
    → IsOwnToken id t rows
    → get_session_by_token now t rows ≡ none
unfolding get_session_by_token
get-IsOwnToken now id t [] no_id h = refl
get-IsOwnToken now id t (s ∷ rest) no_id h =
    ground (arith, no_id.0, h.0, get-IsOwnToken now id t rest no_id.1 h.1)

pub is_taken-IsUnused :
    (id t : Text) (rows : Sessions) → IsUnused t rows → is_taken id t rows ≡ false
unfolding is_taken
is_taken-IsUnused id t [] h = refl
is_taken-IsUnused id t (s ∷ rest) h = ground (arith, h.0, is_taken-IsUnused id t rest h.1)

module _ (s : UserSession) (new_token : Text) (until : ℕ) where
  abbrev s' : UserSession
  s' = rotated until new_token s.session_token s

  abbrev after : Sessions → Sessions
  after rows =
      change_sessions (holds_token s.session_id s.session_token)
        (rotated until new_token s.session_token) rows

  count-IsSole :
      (rows : Sessions)
      → IsSole s rows
      → count_sessions (holds_token s.session_id s.session_token) rows ≡ 1
  unfolding count_sessions
  count-IsSole [] h = absurd h
  count-IsSole (r ∷ rest) (inl (same, others)) =
      let tail = (change_sessions-HasNo s.session_id s.session_token (λ x. x) rest others).1 in
      ap (λ x. count_sessions (holds_token s.session_id s.session_token) (x ∷ rest)) same
      ∙ ground (arith, tail, ≐_self s.session_id, ≐_self s.session_token)
  count-IsSole (r ∷ rest) (inr (other, sole)) = ground (arith, other, count-IsSole rest sole)

  after_head : (rest : Sessions) → HasNo s.session_id rest → after (s ∷ rest) ≡ s' ∷ rest
  unfolding change_sessions
  after_head rest others = ground (
    arith,
    (change_sessions-HasNo s.session_id s.session_token (rotated until new_token s.session_token)
        rest others).0,
    ≐_self s.session_id,
    ≐_self s.session_token,
  )

  get-after_new :
      (later : ℕ) (rows : Sessions)
      → IsSole s rows
      → IsUnused new_token rows
      → get_session_by_token later new_token (after rows) ≡ some s'
  unfolding get_session_by_token change_sessions
  get-after_new later [] h unused = absurd h
  get-after_new later (r ∷ rest) (inl (same, others)) unused =
      ap (λ x. get_session_by_token later new_token (after (x ∷ rest))) same
      ∙ ap (get_session_by_token later new_token) (after_head rest others)
      ∙ ground (arith, ≐_self new_token)
  get-after_new later (r ∷ rest) (inr (other, sole)) unused =
      ground (arith, other, unused.0, get-after_new later rest sole unused.1)

  -- The old token is not the new one, which no row has.
  old_ne_new :
      (rows : Sessions)
      → IsSole s rows
      → IsUnused new_token rows
      → (new_token ≐ s.session_token) ≡ false
  old_ne_new [] h unused = absurd h
  old_ne_new (r ∷ rest) (inl (same, others)) unused = ground (
    arith,
    ap (λ x. mentions new_token x) same,
    unused.0,
    ≐_iff new_token s.session_token,
    ≐_iff s.session_token new_token,
  )
  old_ne_new (r ∷ rest) (inr (other, sole)) unused = old_ne_new rest sole unused.1

  get-after_old :
      (later : ℕ) (rows : Sessions)
      → IsSole s rows
      → IsOwnToken s.session_id s.session_token rows
      → (new_token ≐ s.session_token) ≡ false
      → get_session_by_token later s.session_token (after rows)
        ≡ (if ltb later until then some s' else none)
  unfolding get_session_by_token change_sessions
  get-after_old later [] h own differ = absurd h
  get-after_old later (r ∷ rest) (inl (same, others)) own differ =
      ap (λ x. get_session_by_token later s.session_token (after (x ∷ rest))) same
      ∙ ap (get_session_by_token later s.session_token) (after_head rest others)
      ∙ ground (
        arith,
        ≐_self s.session_token,
        differ,
        get-IsOwnToken later s.session_id s.session_token rest others own.1,
      )
  get-after_old later (r ∷ rest) (inr (other, sole)) own differ =
      ground (arith, other, own.0, get-after_old later rest sole own.1 differ)

  -- No row holds the old token any more.
  abbrev IsSettled : (UserSession → UserSession) → Sessions → Type 0
  IsSettled f rows =
      (count_sessions (holds_token s.session_id s.session_token) rows ≡ 0)
      × (change_sessions (holds_token s.session_id s.session_token) f rows ≡ rows)

  count-after :
      (rows : Sessions)
      → IsSole s rows
      → (new_token ≐ s.session_token) ≡ false
      → (f : UserSession → UserSession)
      → (count_sessions (holds_token s.session_id s.session_token) (after rows) ≡ 0)
        × (change_sessions (holds_token s.session_id s.session_token) f (after rows) ≡ after rows)
  unfolding count_sessions change_sessions
  count-after [] h differ f = absurd h
  count-after (r ∷ rest) (inl (same, others)) differ f =
      let tail = change_sessions-HasNo s.session_id s.session_token f rest others in
      subst (λ x. IsSettled f (after (x ∷ rest))) (sym same)
        (subst (IsSettled f) (sym (after_head rest others))
          (ground (arith, differ, tail.1), ground (arith, differ, tail.0)))
  count-after (r ∷ rest) (inr (other, sole)) differ f =
      let (none_left, same) = count-after rest sole differ f in
      (ground (arith, other, none_left), ground (arith, other, same))

-- Where a session is the only row with its id, only that row has its token and none has the new one,
-- a rotation from its token to the new one changes one row. The new token is then the session's; the
-- old one is so as long as the grace, and no other rotation from it changes anything.
pub rotate_session_token-accepts :
    (now grace later : ℕ) (s : UserSession) (new_token : Text) (rows : Sessions)
    → IsSole s rows
    → IsOwnToken s.session_id s.session_token rows
    → IsUnused new_token rows
    → (now2 grace2 : ℕ) (other_token : Text)
    → let (r, rows') = rotate_session_token now s.session_id new_token s.session_token grace rows in
      let s' = rotated (now + grace) new_token s.session_token s in
      (r ≡ ok 1)
      × (get_session_by_token later new_token rows' ≡ some s')
      × (get_session_by_token later s.session_token rows'
          ≡ (if ltb later (now + grace) then some s' else none))
      × (rotate_session_token now2 s.session_id other_token s.session_token grace2 rows'
          ≡ (ok 0, rows'))
unfolding rotate_session_token
rotate_session_token-accepts now grace later s new_token rows sole own unused now2 grace2
      other_token =
    let until = now + grace in
    let once = count-IsSole s new_token until rows sole in
    let free = is_taken-IsUnused s.session_id new_token rows unused in
    let differ = old_ne_new s new_token until rows sole unused in
    let rows' = after s new_token until rows in
    let done : rotate_session_token now s.session_id new_token s.session_token grace rows
        ≡ (ok 1, rows') =
      ground (arith, once, free) in
    let (none_left, same) =
      count-after s new_token until rows sole differ
        (rotated (now2 + grace2) other_token s.session_token) in
    (
      ap (λ x. x.0) done,
      ap (λ x. get_session_by_token later new_token x.1) done
          ∙ get-after_new s new_token until later rows sole unused,
      ap (λ x. get_session_by_token later s.session_token x.1) done
          ∙ get-after_old s new_token until later rows sole own differ,
      ap (λ x. rotate_session_token now2 s.session_id other_token s.session_token grace2 x.1) done
          ∙ ground (arith, none_left, same)
          ∙ ap (λ x. (ok 0, x.1)) (sym done),
    )
