-- ===== src/Roles/Permissions/Closure.antt =====
-- One round of the `while` loop of `_apply_permission_dependencies` closes the permissions.
use remote_connect_backend.Base.{
  ◌≡◌, refl, ap, true, false, ◌&&◌, ◌||◌, List, [], ◌∷◌, arith, Bool-cases, inl, inr,
}
use remote_connect_backend.Base.Text.{Text, ◌≐◌, ≐_self, eq_of-≐, contains}
use remote_connect_backend.Base.Dict.{lookup_or, keys, contains-keys}
use remote_connect_backend.Roles.Permissions.{
  get_method, is_elevated, Permissions, State, add_get, get_loop, method_loop, group_loop, round,
}
use remote_connect_backend.Roles.Permissions.Adding.{
  has, has-method_loop, has-add_get, any_elevated-contains,
}

-- Where a method other than GET is granted, GET is.
abbrev pub HasGet : Permissions → Text → Type 0
HasGet r g = (m : Text) → has r g m ≡ true → is_elevated m ≡ true → has r g get_method ≡ true

not_elevated_get : is_elevated get_method ≡ false
unfolding is_elevated
not_elevated_get = refl

not_key : (r : Permissions) (g m : Text) → contains g (keys r) ≡ false → has r g m ≡ false
not_key r g m out = ground (arith, contains-keys g r)

add_get-HasGet_self : (k : Text) (s : State) → HasGet (add_get k s).0 k
add_get-HasGet_self k s m h e = ground (
  arith,
  has-add_get k s k m,
  has-add_get k s k get_method,
  ≐_self k,
  ≐_self get_method,
  eq_of-≐ m get_method,
  ap is_elevated {x = m} {y = get_method},
  not_elevated_get,
  any_elevated-contains m (lookup_or [] k s.0),
)

add_get-HasGet : (k : Text) (s : State) (g : Text) → HasGet s.0 g → HasGet (add_get k s).0 g
add_get-HasGet k s g old m h e = ground (
  arith,
  has-add_get k s g m,
  has-add_get k s g get_method,
  old m,
  eq_of-≐ m get_method,
  ap is_elevated {x = m} {y = get_method},
  not_elevated_get,
)

get_loop-HasGet :
    (ks : List Text) (s : State)
    → ((g : Text) → contains g ks ≡ false → HasGet s.0 g)
    → (g : Text) → HasGet (get_loop ks s).0 g
unfolding get_loop
get_loop-HasGet [] s rest g = rest g refl
get_loop-HasGet (k ∷ ks) s rest g =
    get_loop-HasGet ks (add_get k s)
      (λ g' out. elim (Bool-cases (g' ≐ k)) [
        | inl same ↦ rw (eq_of-≐ g' k same) (add_get-HasGet_self k s)
        | inr other ↦ add_get-HasGet k s g' (rest g' (rw other out))
      ])
      g

-- A group passes its methods on to its ancestors.
module _ (get_ancestor_ids : Text → List Text) where
  abbrev pub PassesUp : Permissions → Text → Type 0
  PassesUp r g =
      (m a : Text) → has r g m ≡ true → contains a (get_ancestor_ids g) ≡ true → has r a m ≡ true

  pub record IsClosed (r : Permissions) : Type 0 where
    pub has_get : (g : Text) → HasGet r g
    pub passes_up : (g : Text) → PassesUp r g

  abbrev lift_group : Text → State → State
  lift_group g s = method_loop (get_ancestor_ids g) (lookup_or [] g s.0) s

  has-lift_group :
      (k : Text) (s : State) (g m : Text)
      → has (lift_group k s).0 g m
        ≡ (has s.0 g m || (contains g (get_ancestor_ids k) && has s.0 k m))
  has-lift_group k s g m = has-method_loop (get_ancestor_ids k) (lookup_or [] k s.0) s g m

  lift_group-HasGet :
      (k : Text) (s : State)
      → ((g : Text) → HasGet s.0 g)
      → (g : Text) → HasGet (lift_group k s).0 g
  lift_group-HasGet k s old g m h e =
      ground (arith, has-lift_group k s g m, has-lift_group k s g get_method, old g m, old k m)

  lift_group-PassesUp_self : (k : Text) (s : State) → PassesUp (lift_group k s).0 k
  lift_group-PassesUp_self k s m a h up =
      ground (arith, has-lift_group k s k m, has-lift_group k s a m)

  module _
      (transitive : (g a b : Text)
        → contains a (get_ancestor_ids g) ≡ true
        → contains b (get_ancestor_ids a) ≡ true
        → contains b (get_ancestor_ids g) ≡ true) where
    lift_group-PassesUp :
        (k : Text) (s : State) (g : Text) → PassesUp s.0 g → PassesUp (lift_group k s).0 g
    lift_group-PassesUp k s g old m a h up =
        ground (arith, has-lift_group k s g m, has-lift_group k s a m, old m a, transitive k g a)

    group_loop-IsClosed :
        (ks : List Text) (s : State)
        → ((g : Text) → HasGet s.0 g)
        → ((g : Text) → contains g ks ≡ false → PassesUp s.0 g)
        → IsClosed (group_loop get_ancestor_ids ks s).0
    unfolding group_loop
    group_loop-IsClosed [] s get rest = record { has_get = get; passes_up = λ g. rest g refl }
    group_loop-IsClosed (k ∷ ks) s get rest =
        group_loop-IsClosed ks (lift_group k s) (lift_group-HasGet k s get) (λ g out.
          elim (Bool-cases (g ≐ k)) [
            | inl same ↦ rw (eq_of-≐ g k same) (lift_group-PassesUp_self k s)
            | inr other ↦ lift_group-PassesUp k s g (rest g (rw other out))
          ])

    pub round-IsClosed : (r : Permissions) → IsClosed (round get_ancestor_ids r).0
    unfolding round
    round-IsClosed r =
        let s = get_loop (keys r) (r, false) in
        group_loop-IsClosed (keys s.0) s
          (get_loop-HasGet (keys r) (r, false) (λ g out m h e. cc (not_key r g m out, h)))
          (λ g out m a h up. cc (not_key s.0 g m out, h))
