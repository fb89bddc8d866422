-- ===== src/Authentication/Decision.antt =====
-- What the middleware makes of an authentication.
use remote_connect_backend.Base.{
  ℕ, ◌≡◌, ◌⊎◌, refl, ◌∙◌, sym, subst, ap, Bool, true, false, Option, none, some, if◌then◌else◌,
  Bool-cases, inl, inr, Option-cases,
}
use remote_connect_backend.Base.Text.{Text}
use remote_connect_backend.Base.Action.{Exn, Result, ok, raised, token_error}
use remote_connect_backend.Redis.{Redis}
use remote_connect_backend.Sessions.Devices.{given}
use remote_connect_backend.Authentication.{
  Payload, AuthenticatedSession, Stores, authenticate_normal_user, authenticate_impersonation,
  payload_check, authenticate,
}
use remote_connect_backend.Authentication.Admission.{
  IsOwn, authenticate_normal_user-cases, IsImpersonated, authenticate_impersonation-cases,
}

module _ (redis : Redis) (lease : ℕ) (decode : ℕ → Text → Option Payload) where
  open redis use {Server}

  -- The token is valid and is that of a session of the user's own; or, on the worker for impersonations,
  -- it is for the impersonation of the header, which is active.
  abbrev pub Admits : Bool → ℕ → Text → Option Text → Stores Server → AuthenticatedSession → Type 0
  Admits worker now token header st a =
      (decode now token ≡ some a.payload)
      × (((given header ≡ none) × IsOwn now token st.users st.sessions a)
          ⊎ ((worker ≡ true) × IsImpersonated redis lease header st.users st.server a))

  abbrev pub Outcome :
      Bool
      → ℕ
      → Text
      → Option Text
      → Stores Server
      → Result AuthenticatedSession × Stores Server
      → Type 0
  Outcome worker now token header st x =
      ((e : Exn) × (x ≡ (raised e, st)))
      ⊎ ((a : AuthenticatedSession) × (x.0 ≡ ok a) × Admits worker now token header st a)

  abbrev with_server :
      Stores Server
      → Result AuthenticatedSession × Server
      → Result AuthenticatedSession × Stores Server
  with_server st x = (x.0, record st { server = x.1 })

  own-Outcome :
      (worker : Bool) (now : ℕ) (token : Text) (header : Option Text) (st : Stores Server)
      (p : Payload)
      → decode now token ≡ some p
      → p.impersonated ≡ false
      → (h : Option Text) → given header ≡ h
      → Outcome worker now token header st (
        elim h as (λ _. Result AuthenticatedSession) [
          | none ↦ authenticate_normal_user now token p st.users st.sessions
          | some t ↦ raised token_error
        ],
        st,
      )
  own-Outcome worker now token header st p decoded own (some t) e = inl (token_error, refl)
  own-Outcome worker now token header st p decoded own none e =
      elim (authenticate_normal_user-cases now token p st.users st.sessions own) [
        | inl denied ↦ inl (token_error, ap (λ r. (r, st)) denied)
        | inr (a, accepted, of_token, is_own) ↦
            inr (a, accepted, (decoded ∙ ap some (sym of_token), inl (e, is_own)))
      ]

  impersonated-Outcome :
      (worker : Bool) (now : ℕ) (token : Text) (header : Option Text) (st : Stores Server)
      (p : Payload)
      → decode now token ≡ some p
      → p.impersonated ≡ true
      → Outcome worker now token header st (
          with_server st
            (authenticate_impersonation redis lease worker p st.users header st.server))
  unfolding authenticate_impersonation
  impersonated-Outcome false now token header st p decoded by_token = inl (token_error, refl)
  impersonated-Outcome true now token header st p decoded by_token =
      elim (authenticate_impersonation-cases redis lease p st.users header st.server by_token) [
        | inl (e, denied) ↦ inl (e, ap (with_server st) denied)
        | inr (a, accepted, of_token, is_impersonated) ↦
            inr (a, accepted, (decoded ∙ ap some (sym of_token), inr (refl, is_impersonated)))
      ]

  payload-Outcome :
      (worker : Bool) (now : ℕ) (token : Text) (header : Option Text) (st : Stores Server)
      (p : Payload)
      → decode now token ≡ some p
      → Outcome worker now token header st
          (with_server st (payload_check redis lease worker now token header st (some p)))
  payload-Outcome worker now token header st p decoded =
      let by_token = authenticate_impersonation redis lease worker p st.users header st.server in
      let own : Result AuthenticatedSession = elim (given header) [
        | none ↦ authenticate_normal_user now token p st.users st.sessions
        | some t ↦ raised token_error
      ] in
      elim (Bool-cases p.impersonated) [
        | inl h ↦
            subst
              (λ b.
                Outcome worker now token header st
                  (with_server st (if b then by_token else (own, st.server))))
              (sym h) (impersonated-Outcome worker now token header st p decoded h)
        | inr h ↦
            subst
              (λ b.
                Outcome worker now token header st
                  (with_server st (if b then by_token else (own, st.server))))
              (sym h) (own-Outcome worker now token header st p decoded h (given header) refl)
      ]

  pub authenticate-Outcome :
      (worker : Bool) (now : ℕ) (token : Text) (header : Option Text) (st : Stores Server)
      → Outcome worker now token header st
          (authenticate redis lease decode worker now token header st)
  unfolding authenticate
  authenticate-Outcome worker now token header st = elim (Option-cases (decode now token)) [
    | inl bad ↦ inl (
      token_error,
      ap (λ o. with_server st (payload_check redis lease worker now token header st o)) bad,
    )
    | inr (p, decoded) ↦
        subst
          (λ o.
            Outcome worker now token header st
              (with_server st (payload_check redis lease worker now token header st o)))
          (sym decoded) (payload-Outcome worker now token header st p decoded)
  ]
