-- ===== src/Base/Action.antt =====
-- Functions that read and write a state and may raise: what was written before a raise stays.
use Prim.Native.Nat.{ℕ}
use mathlib.Core.Path.{◌≡◌, refl, sym, subst, ap, ◌∙◌}
use mathlib.Core.Logic.{◌⊎◌, inl, inr}
use native.Mathlib.Omega.{arith}

-- The exceptions that the modelled code raises. `http n` is `HTTPException(status_code=n)`.
pub data Exn : Type 0 where
  http : ℕ → Exn
  type_error value_error key_error runtime_error timeout_error : Exn
  session_not_found bypass_error ignore : Exn
  token_error : Exn
  other : Exn

pub data Result (A : Type 0) : Type 0 where
  ok : A → Result A
  raised : Exn → Result A

abbrev pub Action : Type 0 → Type 0 → Type 0
Action S A = S → Result A × S

module _ {S A : Type 0} where
  abbrev pub pure : A → Action S A
  pure a s = (ok a, s)

  abbrev pub raise : Exn → Action S A
  raise e s = (raised e, s)

  abbrev pub gets : (S → A) → Action S A
  gets f s = (ok (f s), s)

abbrev pub modify : {S : Type 0} → (S → S) → Action S (Unit {0})
modify f s = (ok tt, f s)

infixl 5 ◌>>=◌ ◌>>◌
abbrev pub ◌>>=◌ : {S A B : Type 0} → Action S A → (A → Action S B) → Action S B
◌>>=◌ m f s = let (r, s') = m s in elim r [ ok a ↦ f a s' | raised e ↦ (raised e, s') ]

abbrev pub ◌>>◌ : {S B : Type 0} → Action S (Unit {0}) → Action S B → Action S B
m >> k = m >>= λ _. k

-- A first step that returns hands its state on.
pub >>-ok :
    {S B : Type 0} (m : Action S (Unit {0})) (k : Action S B) (s : S)
    → (m s).0 ≡ ok tt
    → (m >> k) s ≡ k (m s).1
>>-ok m k s done = ground arith

pub >>-step :
    {S B : Type 0} (m : Action S (Unit {0})) (k : Action S B) (s s' : S)
    → m s ≡ (ok tt, s')
    → (m >> k) s ≡ k s'
>>-step m k s s' e = >>-ok m k s (ap (λ x. x.0) e) ∙ ap (λ x. k x.1) e

-- A first step that returns hands its result and its state on; one that raises is the last.
pub >>=-ok :
    {S A B : Type 0} (m : Action S A) (f : A → Action S B) (s s' : S) (a : A)
    → m s ≡ (ok a, s')
    → (m >>= f) s ≡ f a s'
>>=-ok {S} {A} {B} m f s s' a e =
    let after : Result A × S → Result B × S =
      λ x. elim x.0 [ ok b ↦ f b x.1 | raised e' ↦ (raised e', x.1) ] in
    ap after e

pub >>=-raised :
    {S A B : Type 0} (m : Action S A) (f : A → Action S B) (s s' : S) (e : Exn)
    → m s ≡ (raised e, s')
    → (m >>= f) s ≡ (raised e, s')
>>=-raised {S} {A} {B} m f s s' e h =
    let after : Result A × S → Result B × S =
      λ x. elim x.0 [ ok b ↦ f b x.1 | raised e' ↦ (raised e', x.1) ] in
    ap after h

pub Result-cases : (r : Result (Unit {0})) → (r ≡ ok tt) ⊎ ((e : Exn) × (r ≡ raised e))
Result-cases (ok _) = inl refl
Result-cases (raised e) = inr (e, refl)

-- A first step that raises is the last.
pub >>-raised :
    {S B : Type 0} (m : Action S (Unit {0})) (k : Action S B) (s : S) (e : Exn)
    → (m s).0 ≡ raised e
    → (m >> k) s ≡ (raised e, (m s).1)
>>-raised m k s e h = ground arith

-- What holds after a first step, and after the second where the first returns, holds after both.
pub >>-preserves :
    {S B : Type 0} (P : S → Type 0) (m : Action S (Unit {0})) (k : Action S B) (s : S)
    → P (m s).1
    → ((m s).0 ≡ ok tt → P (k (m s).1).1)
    → P ((m >> k) s).1
>>-preserves P m k s first second = elim (Result-cases (m s).0) [
  | inl done ↦ subst (λ x. P x.1) (sym (>>-ok m k s done)) (second done)
  | inr (e, stop) ↦ subst (λ x. P x.1) (sym (>>-raised m k s e stop)) first
]

pub Outcome-cases :
    {A : Type 0} (r : Result A) → ((a : A) × (r ≡ ok a)) ⊎ ((e : Exn) × (r ≡ raised e))
Outcome-cases (ok a) = inl (a, refl)
Outcome-cases (raised e) = inr (e, refl)

-- The same for a first step with a result, and for one whose exceptions are caught.
pub >>=-preserves :
    {S A B : Type 0} (P : S → Type 0) (m : Action S A) (f : A → Action S B) (s : S)
    → P (m s).1
    → ((a : A) → (m s).0 ≡ ok a → P (f a (m s).1).1)
    → P ((m >>= f) s).1
>>=-preserves P m f s first second = elim (Outcome-cases (m s).0) [
  | inl (a, done) ↦
      subst (λ x. P x.1) (sym (>>=-ok m f s (m s).1 a (ap (λ r. (r, (m s).1)) done)))
        (second a done)
  | inr (e, stop) ↦
      subst (λ x. P x.1) (sym (>>=-raised m f s (m s).1 e (ap (λ r. (r, (m s).1)) stop))) first
]
