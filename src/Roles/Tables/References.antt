-- ===== src/Roles/Tables/References.antt =====
-- What the queries on role groups and on assignments find after the changes.
use remote_connect_backend.Base.{
  ℕ, ◌+◌, ◌≤◌, ◌≡◌, refl, true, false, none, some, is_some, List, [], ◌∷◌, ◌++◌, arith,
  if◌then◌else◌, ◌==◌,
}
use remote_connect_backend.Base.Text.{Text}
use remote_connect_backend.Roles.Rows.{Row, has_row}
use remote_connect_backend.Roles.Tables.{
  RoleGroup, UserRole, groups_of, groups_without, new_groups, has_permission, role_of_user,
  without_user, without_role, without_assignment, any_with_role,
}

-- How many assignments the user has.
unfoldable pub assignments : ℕ → List UserRole → ℕ
assignments u [] = 0
assignments u (x ∷ xs) = (if x.user_id == u then 1 else 0) + assignments u xs

pub groups_of-append :
    (id : ℕ) (xs ys : List RoleGroup) → groups_of id (xs ++ ys) ≡ groups_of id xs ++ groups_of id ys
unfolding groups_of
groups_of-append id [] ys = refl
groups_of-append id (x ∷ xs) ys = ground (arith, groups_of-append id xs ys)

pub groups_of-groups_without :
    (k id : ℕ) (xs : List RoleGroup)
    → groups_of id (groups_without k xs) ≡ (if k == id then [] else groups_of id xs)
unfolding groups_of groups_without
groups_of-groups_without k id [] = ground arith
groups_of-groups_without k id (x ∷ xs) = ground (arith, groups_of-groups_without k id xs)

pub groups_of-new_groups :
    (k id : ℕ) (rows : List Row)
    → groups_of id (new_groups k rows) ≡ (if k == id then new_groups k rows else [])
unfolding groups_of new_groups
groups_of-new_groups k id [] = ground arith
groups_of-new_groups k id (r ∷ rows) = ground (arith, groups_of-new_groups k id rows)

pub has_permission-append :
    (id : ℕ) (g m : Text) (xs ys : List RoleGroup)
    → has_permission id g m (xs ++ ys)
      ≡ (if has_permission id g m xs then true else has_permission id g m ys)
unfolding has_permission
has_permission-append id g m [] ys = refl
has_permission-append id g m (x ∷ xs) ys = ground (arith, has_permission-append id g m xs ys)

pub has_permission-groups_without :
    (k id : ℕ) (g m : Text) (xs : List RoleGroup)
    → has_permission id g m (groups_without k xs)
      ≡ (if k == id then false else has_permission id g m xs)
unfolding has_permission groups_without
has_permission-groups_without k id g m [] = ground arith
has_permission-groups_without k id g m (x ∷ xs) =
    ground (arith, has_permission-groups_without k id g m xs)

pub has_permission-new_groups :
    (k id : ℕ) (g m : Text) (rows : List Row)
    → has_permission id g m (new_groups k rows) ≡ (if k == id then has_row g m rows else false)
unfolding has_permission new_groups
has_permission-new_groups k id g m [] = ground arith
has_permission-new_groups k id g m (r ∷ rows) =
    ground (arith, has_permission-new_groups k id g m rows)

-- A role without role groups has no permission.
pub has_permission-none :
    (id : ℕ) (g m : Text) (xs : List RoleGroup)
    → groups_of id xs ≡ []
    → has_permission id g m xs ≡ false
unfolding has_permission groups_of
has_permission-none id g m [] h = refl
has_permission-none id g m (x ∷ xs) h = ground (arith, has_permission-none id g m xs)

pub any_with_role-append :
    (r : ℕ) (xs : List UserRole) (x : UserRole)
    → any_with_role r (xs ++ x ∷ []) ≡ (if any_with_role r xs then true else x.assigned_role == r)
unfolding any_with_role
any_with_role-append r [] x = ground arith
any_with_role-append r (y ∷ xs) x = ground (arith, any_with_role-append r xs x)

pub any_with_role-without_role :
    (k r : ℕ) (xs : List UserRole)
    → any_with_role r (without_role k xs) ≡ (if k == r then false else any_with_role r xs)
unfolding any_with_role without_role
any_with_role-without_role k r [] = ground arith
any_with_role-without_role k r (x ∷ xs) = ground (arith, any_with_role-without_role k r xs)

pub any_with_role-without_user :
    (u r : ℕ) (xs : List UserRole)
    → any_with_role r xs ≡ false
    → any_with_role r (without_user u xs) ≡ false
unfolding any_with_role without_user
any_with_role-without_user u r [] h = refl
any_with_role-without_user u r (x ∷ xs) h = ground (arith, any_with_role-without_user u r xs)

pub any_with_role-without_assignment :
    (i r : ℕ) (xs : List UserRole)
    → any_with_role r xs ≡ false
    → any_with_role r (without_assignment i xs) ≡ false
unfolding any_with_role without_assignment
any_with_role-without_assignment i r [] h = refl
any_with_role-without_assignment i r (x ∷ xs) h =
    ground (arith, any_with_role-without_assignment i r xs)

pub role_of_user-append :
    (u : ℕ) (xs : List UserRole) (x : UserRole)
    → role_of_user u (xs ++ x ∷ []) ≡ (
        if is_some (role_of_user u xs)
        then role_of_user u xs
        else if x.user_id == u
        then some x
        else none)
unfolding role_of_user
role_of_user-append u [] x = ground arith
role_of_user-append u (y ∷ xs) x = ground (arith, role_of_user-append u xs x)

pub role_of_user-without_user :
    (k u : ℕ) (xs : List UserRole)
    → role_of_user u (without_user k xs) ≡ (if k == u then none else role_of_user u xs)
unfolding role_of_user without_user
role_of_user-without_user k u [] = ground arith
role_of_user-without_user k u (x ∷ xs) = ground (arith, role_of_user-without_user k u xs)

pub role_of_user-assignments :
    (u : ℕ) (xs : List UserRole)
    → is_some (role_of_user u xs) ≡ (if assignments u xs == 0 then false else true)
unfolding role_of_user assignments
role_of_user-assignments u [] = refl
role_of_user-assignments u (x ∷ xs) = ground (arith, role_of_user-assignments u xs)

pub assignments-append :
    (u : ℕ) (xs : List UserRole) (x : UserRole)
    → assignments u (xs ++ x ∷ []) ≡ assignments u xs + (if x.user_id == u then 1 else 0)
unfolding assignments
assignments-append u [] x = ground arith
assignments-append u (y ∷ xs) x = ground (arith, assignments-append u xs x)

pub assignments-without_user :
    (k u : ℕ) (xs : List UserRole) → assignments u (without_user k xs) ≤ assignments u xs
unfolding assignments without_user
assignments-without_user k u [] = omega arith
assignments-without_user k u (x ∷ xs) = ground (arith, assignments-without_user k u xs)

pub assignments-without_role :
    (r u : ℕ) (xs : List UserRole) → assignments u (without_role r xs) ≤ assignments u xs
unfolding assignments without_role
assignments-without_role r u [] = omega arith
assignments-without_role r u (x ∷ xs) = ground (arith, assignments-without_role r u xs)

pub assignments-without_assignment :
    (i u : ℕ) (xs : List UserRole) → assignments u (without_assignment i xs) ≤ assignments u xs
unfolding assignments without_assignment
assignments-without_assignment i u [] = omega arith
assignments-without_assignment i u (x ∷ xs) = ground (arith, assignments-without_assignment i u xs)
