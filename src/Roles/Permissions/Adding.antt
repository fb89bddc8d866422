-- ===== src/Roles/Permissions/Adding.antt =====
-- What each of the inner loops adds, as equations about membership.
use remote_connect_backend.Base.{
  ◌≡◌, refl, ◌∙◌, ap, Bool, true, ◌&&◌, ◌||◌, List, [], ◌∷◌, ◌++◌, arith, if◌then◌else◌, Bool-cases,
  inl, inr,
}
use remote_connect_backend.Base.Text.{Text, ◌≐◌, ≐_comm, ≐_self, eq_of-≐, contains}
use remote_connect_backend.Base.Dict.{lookup, lookup_or, insert, setdefault, lookup-insert}
use remote_connect_backend.Roles.Permissions.{
  get_method, is_elevated, any_elevated, Permissions, State, add_get, add_method, ancestor_loop,
  method_loop,
}

-- The group has the method.
abbrev pub has : Permissions → Text → Text → Bool
has r g m = contains m (lookup_or [] g r)

pub contains-append_one :
    (x y : Text) (xs : List Text) → contains x (xs ++ y ∷ []) ≡ (contains x xs || x ≐ y)
contains-append_one x y [] = ground arith
contains-append_one x y (z ∷ xs) = ground (arith, contains-append_one x y xs)

pub has-insert :
    (k g m : Text) (ms : List Text) (r : Permissions)
    → has (insert k ms r) g m ≡ (if k ≐ g then contains m ms else has r g m)
has-insert k g m ms r = ground (arith, lookup-insert k g ms r)

pub has-setdefault : (k g m : Text) (r : Permissions) → has (setdefault k [] r) g m ≡ has r g m
has-setdefault k g m r =
    ground (arith, has-insert k g m [] r, eq_of-≐ k g, ap (λ x. lookup x r) {x = k} {y = g})

pub has-add_method :
    (m a : Text) (s : State) (g m' : Text)
    → has (add_method m a s).0 g m' ≡ (has s.0 g m' || (a ≐ g && m' ≐ m))
unfolding add_method
has-add_method m a s g m' = ground (
  arith,
  has-setdefault a g m' s.0,
  has-setdefault a a m' s.0,
  has-insert a g m' (lookup_or [] a (setdefault a [] s.0) ++ m ∷ []) (setdefault a [] s.0),
  contains-append_one m' m (lookup_or [] a (setdefault a [] s.0)),
  eq_of-≐ a g,
  eq_of-≐ m' m,
  ≐_self a,
  ap (λ x. has s.0 x m') {x = a} {y = g},
  ap (λ x. contains x (lookup_or [] a (setdefault a [] s.0))) {x = m'} {y = m},
)

pub has-ancestor_loop :
    (m : Text) (ids : List Text) (s : State) (g m' : Text)
    → has (ancestor_loop m ids s).0 g m' ≡ (has s.0 g m' || (contains g ids && m' ≐ m))
unfolding ancestor_loop
has-ancestor_loop m [] s g m' = ground arith
has-ancestor_loop m (a ∷ ids) s g m' =
    has-ancestor_loop m ids (add_method m a s) g m'
    ∙ ground (arith, has-add_method m a s g m', ≐_comm a g)

pub has-method_loop :
    (ids ms : List Text) (s : State) (g m : Text)
    → has (method_loop ids ms s).0 g m ≡ (has s.0 g m || (contains g ids && contains m ms))
unfolding method_loop
has-method_loop ids [] s g m = ground arith
has-method_loop ids (m' ∷ ms) s g m =
    has-method_loop ids ms (ancestor_loop m' ids s) g m
    ∙ ground (arith, has-ancestor_loop m' ids s g m)

pub has-add_get :
    (k : Text) (s : State) (g m : Text)
    → has (add_get k s).0 g m
      ≡ (has s.0 g m || ((k ≐ g && m ≐ get_method) && any_elevated (lookup_or [] k s.0)))
unfolding add_get
has-add_get k s g m = ground (
  arith,
  has-insert k g m (lookup_or [] k s.0 ++ get_method ∷ []) s.0,
  contains-append_one m get_method (lookup_or [] k s.0),
  eq_of-≐ k g,
  eq_of-≐ m get_method,
  ap (λ x. has s.0 x m) {x = k} {y = g},
  ap (λ x. has s.0 k x) {x = m} {y = get_method},
)

-- A list with an elevated method shows it.
pub any_elevated-contains :
    (m : Text) (ms : List Text)
    → contains m ms ≡ true
    → is_elevated m ≡ true
    → any_elevated ms ≡ true
unfolding any_elevated
any_elevated-contains m [] h e = cc
any_elevated-contains m (x ∷ ms) h e =
    ground (arith, eq_of-≐ m x, ap is_elevated {x = m} {y = x}, any_elevated-contains m ms)

pub any_elevated_from :
    (ms : List Text)
    → any_elevated ms ≡ true
    → (m : Text) × (contains m ms ≡ true) × (is_elevated m ≡ true)
unfolding any_elevated
any_elevated_from [] h = cc
any_elevated_from (x ∷ ms) h = elim (Bool-cases (is_elevated x)) [
  | inl e ↦ (x, rw (≐_self x) refl, e)
  | inr e ↦ let (m, h_in, h_el) = any_elevated_from ms (ground arith) in (m, ground arith, h_el)
]
