-- ===== src/Authentication/Dispatching.antt =====
-- Which requests are served, and as whom.
use remote_connect_backend.Base.{
  ℕ, zero, suc, ◌≡◌, ◌⊎◌, refl, ◌∙◌, sym, subst, ap, Bool, true, false, ◌&&◌, ◌||◌, not, Option,
  none, some, is_some, arith, if◌then◌else◌, Bool-cases, inl, inr, Option-cases,
}
use remote_connect_backend.Base.Text.{Text, codes, ◌≐◌}
use remote_connect_backend.Base.Action.{Result, ok, raised}
use remote_connect_backend.Redis.{Redis}
use remote_connect_backend.Sessions.{UserSession, Sessions, rotate_session_token}
use remote_connect_backend.Sessions.Devices.{given, is_empty}
use remote_connect_backend.Authorization.{matches, normalized_path}
use remote_connect_backend.Authentication.{
  Payload, ImpersonationInfo, AuthenticatedSession, Stores, is_header, authenticate,
}
use remote_connect_backend.Authentication.Admission.{IsImpersonated}
use remote_connect_backend.Authentication.Middleware.{
  Request, get_bearer_token, Seen, seen_by, Answer, answered, refused, failed, Config, expiring,
  user_payload, rotation_answer, refreshed, after_handler, user_answer, token_check,
  impersonation_answer, worker_answer, worker_token_check, worker_header_check,
  dispatch_impersonation_worker, is_open, dispatch,
}
use remote_connect_backend.Authentication.Decision.{Admits, Outcome, authenticate-Outcome}

given-some : (o : Option Text) (t : Text) → given o ≡ some t → given (some t) ≡ some t
given-some none t h = absurd (ground arith)
given-some (some u) t h = elim (Bool-cases (is_empty u)) [
  | inl empty ↦ absurd (ground (arith, empty, h))
  | inr full ↦
      let same : some u ≡ some t = sym (ground (arith, full)) ∙ h in ground (arith, same, full)
]

module _ (redis : Redis) (lease : ℕ) where
  open redis use {Server}

  -- Only what the header gives counts.
  IsImpersonated-given :
      (t : Text) (header : Option Text) (st : Stores Server) (a : AuthenticatedSession)
      → given header ≡ some t
      → IsImpersonated redis lease (some t) st.users st.server a
      → IsImpersonated redis lease header st.users st.server a
  IsImpersonated-given t header st a h i = record {
    by_token = i.by_token;
    claims = i.claims;
    claimed = i.claimed;
    in_header =
        ap (λ o. is_header o i.claims.claimed_id) (h ∙ sym (given-some header t h)) ∙ i.in_header;
    impersonation = i.impersonation;
    is_active = i.is_active;
    same = i.same;
    admin = i.admin;
    admin_found = i.admin_found;
    admin_is_admin = i.admin_is_admin;
    target_found = i.target_found;
    target_active = i.target_active;
    as_claimed = i.as_claimed;
  }

module _ (redis : Redis) (lease : ℕ) (decode : ℕ → Text → Option Payload) (encode : Payload → Text)
    (cfg : Config) (worker : Bool) (now later : ℕ) (r : Request) where
  open redis use {Server}

  -- Whether the request must be for an impersonation.
  abbrev pub is_gated : Bool
  is_gated = worker && not (matches cfg.impersonation_auth_bypass r.method (normalized_path r.path))

  -- The handler has run for the authentication, and has been answered with or without a new cookie, or
  -- the rotation of the token has failed after it.
  abbrev pub IsServed : Stores Server → Answer → Type 0
  IsServed st x =
      (token : Text) × (a : AuthenticatedSession) × Admits redis lease decode worker now token
        r.impersonation_id_header st a
      × (given (get_bearer_token r) ≡ some token)
      × ((not is_gated || is_some a.impersonation) ≡ true)
      × ((x ≡ failed) ⊎ ((cookie : Option Text) × (x ≡ answered (seen_by a) cookie)))

  abbrev Decided : Stores Server → Answer × Stores Server → Type 0
  Decided st x = ((status : ℕ) × (x ≡ (refused status, st))) ⊎ IsServed st x.0

  rotation_answer-served :
      (seen : Seen) (token : Text) (st : Stores Server) (x : Result ℕ × Sessions)
      → let y = rotation_answer redis lease decode encode seen token st x in
        (y.0 ≡ failed) ⊎ ((cookie : Option Text) × (y.0 ≡ answered seen cookie))
  rotation_answer-served seen token st (raised e, rows) = inl refl
  rotation_answer-served seen token st (ok zero, rows) = inr (none, refl)
  rotation_answer-served seen token st (ok (suc n), rows) = inr (some token, refl)

  after_handler-served :
      (token : Text) (a : AuthenticatedSession) (o : Option UserSession) (st : Stores Server)
      → let y = after_handler redis lease decode encode cfg later token a o st in
        (y.0 ≡ failed) ⊎ ((cookie : Option Text) × (y.0 ≡ answered (seen_by a) cookie))
  after_handler-served token a none st = inr (none, refl)
  after_handler-served token a (some s) st = elim (Bool-cases (expiring later a.payload.exp)) [
    | inr lasting ↦ inr (none, ground (arith, lasting))
    | inl soon ↦
        subst
          (λ b.
            let y =
              if b
              then refreshed redis lease decode encode cfg later token a s st
              else (answered (seen_by a) none, st) in
            (y.0 ≡ failed) ⊎ ((cookie : Option Text) × (y.0 ≡ answered (seen_by a) cookie)))
          (sym soon)
          (let new_token = encode (user_payload later cfg.jwt_access_token_minutes a.user) in
            rotation_answer-served (seen_by a) new_token st (
              rotate_session_token later s.session_id new_token token
                cfg.token_rotation_grace_seconds st.sessions))
  ]

  module _ (call_next : Seen → Stores Server → Stores Server) (st : Stores Server) where
    -- The two ways on which a token is checked.
    user_answer-Decided :
        (token : Text)
        → given (get_bearer_token r) ≡ some token
        → is_gated ≡ false
        → (x : Result AuthenticatedSession × Stores Server)
        → Outcome redis lease decode worker now token r.impersonation_id_header st x
        → Decided st (user_answer redis lease decode encode cfg later call_next token x)
    user_answer-Decided token given_token open_gate (raised e, st') (inl (f, same)) =
        inl (401, ap (λ (x : Result AuthenticatedSession × Stores Server). (refused 401, x.1)) same)
    user_answer-Decided token given_token open_gate (ok a, st') (inl (f, same)) =
        absurd (ground (arith, ap (λ (x : Result AuthenticatedSession × Stores Server). x.0) same))
    user_answer-Decided token given_token open_gate (raised e, st') (inr (a, accepted, admitted)) =
        absurd (ground (arith, accepted))
    user_answer-Decided token given_token open_gate (ok b, st') (inr (a, accepted, admitted)) =
        let same : a ≡ b = ground (arith, accepted) in
        inr (
          token,
          b,
          subst (Admits redis lease decode worker now token r.impersonation_id_header st) same
              admitted,
          given_token,
          ground (arith, open_gate),
          after_handler-served token b b.session (call_next (seen_by b) st'),
        )

    impersonation_answer-Decided :
        (token : Text) (a : AuthenticatedSession) (st' : Stores Server)
        → given (get_bearer_token r) ≡ some token
        → worker ≡ true
        → Admits redis lease decode worker now token r.impersonation_id_header st a
        → is_some a.impersonation ≡ true
        → (o : Option ImpersonationInfo) → a.impersonation ≡ o
        → Decided st (impersonation_answer redis lease decode encode call_next a o st')
    impersonation_answer-Decided token a st' given_token on_worker admitted there none e =
        absurd (ground (arith, there, e))
    impersonation_answer-Decided token a st' given_token on_worker admitted there (some i) e =
        inr (token, a, admitted, given_token, ground (arith, there), inr (none, refl))

    worker_answer-Decided :
        (token header : Text)
        → given (get_bearer_token r) ≡ some token
        → given r.impersonation_id_header ≡ some header
        → worker ≡ true
        → (x : Result AuthenticatedSession × Stores Server)
        → Outcome redis lease decode true now token (some header) st x
        → Decided st (worker_answer redis lease decode encode call_next x)
    worker_answer-Decided token header given_token given_header on_worker (raised e, st')
          (inl (f, same)) =
        inl (403, ap (λ (x : Result AuthenticatedSession × Stores Server). (refused 403, x.1)) same)
    worker_answer-Decided token header given_token given_header on_worker (ok a, st')
          (inl (f, same)) =
        absurd (ground (arith, ap (λ (x : Result AuthenticatedSession × Stores Server). x.0) same))
    worker_answer-Decided token header given_token given_header on_worker (raised e, st')
          (inr (a, accepted, admitted)) =
        absurd (ground (arith, accepted))
    worker_answer-Decided token header given_token given_header on_worker (ok b, st')
          (inr (a, accepted, (decoded, inl (none_given, own)))) =
        absurd
          (ground (arith, given-some r.impersonation_id_header header given_header, none_given))
    worker_answer-Decided token header given_token given_header on_worker (ok b, st')
          (inr (a, accepted, (decoded, inr (u, impersonated)))) =
        let same : a ≡ b = ground (arith, accepted) in
        let admitted : Admits redis lease decode worker now token r.impersonation_id_header st a = (
          decoded,
          inr (
            on_worker,
            IsImpersonated-given redis lease header r.impersonation_id_header st a given_header
                impersonated,
          ),
        ) in
        impersonation_answer-Decided token b st' given_token on_worker
          (subst (Admits redis lease decode worker now token r.impersonation_id_header st) same
            admitted)
          (subst (λ c. is_some c.impersonation ≡ true) same
            (ap (λ c. is_some c.impersonation) impersonated.as_claimed))
          b.impersonation refl

    gated-Decided :
        worker ≡ true
        → Decided st (dispatch_impersonation_worker redis lease decode encode now call_next r st)
    unfolding dispatch_impersonation_worker
    gated-Decided on_worker = elim (Option-cases (given r.impersonation_id_header)) [
      | inl missing ↦ inl (403, ground (arith, missing))
      | inr (header, given_header) ↦ elim (Option-cases (given (get_bearer_token r))) [
        | inl missing ↦ inl (403, ground (arith, given_header, missing))
        | inr (token, given_token) ↦
            subst
              (λ h. Decided st (worker_header_check redis lease decode encode now call_next r h st))
              (sym given_header)
              (subst
                (λ t.
                  Decided st
                    (worker_token_check redis lease decode encode now call_next header t st))
                (sym given_token)
                (worker_answer-Decided token header given_token given_header on_worker
                  (authenticate redis lease decode true now token (some header) st)
                  (authenticate-Outcome redis lease decode true now token (some header) st)))
      ]
    ]

    checked-Decided :
        is_gated ≡ false
        → Decided st (
            token_check redis lease decode encode cfg worker now later call_next r
              (given (get_bearer_token r))
              st)
    checked-Decided open_gate = elim (Option-cases (given (get_bearer_token r))) [
      | inl missing ↦ inl (401, ground (arith, missing))
      | inr (token, given_token) ↦
          subst
            (λ t.
              Decided st
                (token_check redis lease decode encode cfg worker now later call_next r t st))
            (sym given_token)
            (user_answer-Decided token given_token open_gate
              (authenticate redis lease decode worker now token r.impersonation_id_header st)
              (authenticate-Outcome redis lease decode worker now token r.impersonation_id_header
                st))
    ]

    -- A request that needs a token, as it is neither OPTIONS nor for an open path, is refused, and then
    -- nothing has changed; or it is answered, or fails after its handler, for an authentication that its
    -- token admits: that of a session of the user's own which is not logged out, or, on the worker for
    -- impersonations, that of the active impersonation of its header. Where that worker's gate is not
    -- bypassed, it is for an impersonation.
    pub dispatch-IsServed :
        (r.method ≐ codes "OPTIONS") ≡ false
        → is_open redis lease decode encode cfg r ≡ false
        → let x = dispatch redis lease decode encode cfg worker now later call_next r st in
          ((status : ℕ) × (x ≡ (refused status, st))) ⊎ IsServed st x.0
    unfolding dispatch
    dispatch-IsServed asked closed =
        let checked =
          token_check redis lease decode encode cfg worker now later call_next r
            (given (get_bearer_token r)) st in
        let gate = is_some (given r.impersonation_id_header) && not worker in
        let gated = dispatch_impersonation_worker redis lease decode encode now call_next r st in
        elim (Bool-cases is_gated) [
          | inl gate_shut ↦
              subst (Decided st) (ground (arith, asked, gate_shut))
                (gated-Decided (ground (arith, gate_shut)))
          | inr gate_open ↦ elim (Bool-cases gate) [
            | inl strange ↦ inl (403, ground (arith, asked, gate_open, closed, strange))
            | inr plain ↦
                subst (Decided st) (ground (arith, asked, gate_open, closed, plain))
                  (checked-Decided gate_open)
          ]
        ]
