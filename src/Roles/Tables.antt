-- ===== src/Roles/Tables.antt =====
-- The tables of roles: apps/app/modules/role/entities, apps/app/modules/user/entities/user_role_entity.py
-- and the repositories over them. A table is the list of its rows. The constraints of the schema
-- are part of the model: a row that breaks one makes the flush raise, and nothing is written.
-- The time stamps and the ids of role groups, which no service reads, are left out.
pub mod Queries
pub mod References
use remote_connect_backend.Base.{
  ℕ, Bool, true, false, not, ◌&&◌, ◌||◌, Option, none, some, is_some, List, [], ◌∷◌, ◌++◌,
  if◌then◌else◌, ◌==◌,
}
use remote_connect_backend.Base.Text.{Text, ◌≐◌}
use remote_connect_backend.Base.Action.{
  Action, ok, raised, pure, raise, gets, modify, ◌>>=◌, ◌>>◌, other,
}
use remote_connect_backend.Roles.Rows.{Row}

pub record Role : Type 0 where
  pub role_id : ℕ
  pub role_name : Text
  pub role_description : Option Text
  pub enabled : Bool
  pub is_default : Bool
  pub created_by_user_id : ℕ
  pub updated_by_user_id : Option ℕ

pub record RoleGroup : Type 0 where
  pub of_role : ℕ
  pub row : Row

pub record UserRole : Type 0 where
  pub assignment_id : ℕ
  pub user_id : ℕ
  pub assigned_role : ℕ
  pub assigned_by : ℕ

-- `users` has the ids of the users.
pub record Tables : Type 0 where
  pub roles : List Role
  pub role_groups : List RoleGroup
  pub user_roles : List UserRole
  pub users : List ℕ

abbrev pub with_roles : List Role → Tables → Tables
with_roles rs t = record {
  roles = rs;
  role_groups = t.role_groups;
  user_roles = t.user_roles;
  users = t.users;
}

abbrev pub with_role_groups : List RoleGroup → Tables → Tables
with_role_groups gs t = record {
  roles = t.roles;
  role_groups = gs;
  user_roles = t.user_roles;
  users = t.users;
}

abbrev pub with_user_roles : List UserRole → Tables → Tables
with_user_roles us t = record {
  roles = t.roles;
  role_groups = t.role_groups;
  user_roles = us;
  users = t.users;
}

-- `RoleRepository.get_by_id`
unfoldable pub find_role : ℕ → List Role → Option Role
find_role id [] = none
find_role id (r ∷ rs) = if r.role_id == id then some r else find_role id rs

-- `RoleRepository.get_default_role`
unfoldable pub default_role : List Role → Option Role
default_role [] = none
default_role (r ∷ rs) = if r.is_default then some r else default_role rs

abbrev pub with_default : Bool → Role → Role
with_default b r = record {
  role_id = r.role_id;
  role_name = r.role_name;
  role_description = r.role_description;
  enabled = r.enabled;
  is_default = b;
  created_by_user_id = r.created_by_user_id;
  updated_by_user_id = r.updated_by_user_id;
}

-- `RoleRepository.clear_default_flag`
unfoldable pub clear_default : List Role → List Role
clear_default [] = []
clear_default (r ∷ rs) = (if r.is_default then with_default false r else r) ∷ clear_default rs

-- A flush of a change to the row with the id.
unfoldable pub change_role : (Role → Role) → ℕ → List Role → List Role
change_role f id [] = []
change_role f id (r ∷ rs) =
    let rest = change_role f id rs in if r.role_id == id then f r ∷ rs else r ∷ rest

-- `session.delete(role)`
unfoldable pub remove_role : ℕ → List Role → List Role
remove_role id [] = []
remove_role id (r ∷ rs) = let rest = remove_role id rs in if r.role_id == id then rest else r ∷ rest

-- `RoleGroupRepository.get_by_role_id`
unfoldable pub groups_of : ℕ → List RoleGroup → List RoleGroup
groups_of id [] = []
groups_of id (g ∷ gs) = let rest = groups_of id gs in if g.of_role == id then g ∷ rest else rest

-- `RoleGroupRepository.delete_by_role_id`
unfoldable pub groups_without : ℕ → List RoleGroup → List RoleGroup
groups_without id [] = []
groups_without id (g ∷ gs) =
    let rest = groups_without id gs in if g.of_role == id then rest else g ∷ rest

-- `RoleGroupRepository.create_for_role`
unfoldable pub new_groups : ℕ → List Row → List RoleGroup
new_groups id [] = []
new_groups id (r ∷ rs) = record { of_role = id; row = r } ∷ new_groups id rs

-- `RoleGroupRepository.has_permission`
unfoldable pub has_permission : ℕ → Text → Text → List RoleGroup → Bool
has_permission id g m [] = false
has_permission id g m (x ∷ xs) =
    if (x.of_role == id) && ((x.row.row_group_id ≐ g) && (x.row.row_permission ≐ m))
    then true
    else has_permission id g m xs

-- `UserRoleRepository.get_by_user_id`
unfoldable pub role_of_user : ℕ → List UserRole → Option UserRole
role_of_user u [] = none
role_of_user u (x ∷ xs) = if x.user_id == u then some x else role_of_user u xs

-- `UserRoleRepository.get_by_user_and_role`
unfoldable pub user_with_role : ℕ → ℕ → List UserRole → Option UserRole
user_with_role u r [] = none
user_with_role u r (x ∷ xs) =
    if (x.user_id == u) && (x.assigned_role == r) then some x else user_with_role u r xs

-- `UserRoleRepository.get_by_id`
unfoldable pub find_assignment : ℕ → List UserRole → Option UserRole
find_assignment i [] = none
find_assignment i (x ∷ xs) = if x.assignment_id == i then some x else find_assignment i xs

-- `UserRoleRepository.delete_by_user_id`
unfoldable pub without_user : ℕ → List UserRole → List UserRole
without_user u [] = []
without_user u (x ∷ xs) = let rest = without_user u xs in if x.user_id == u then rest else x ∷ rest

-- `UserRoleRepository.delete_by_role_id`
unfoldable pub without_role : ℕ → List UserRole → List UserRole
without_role r [] = []
without_role r (x ∷ xs) =
    let rest = without_role r xs in if x.assigned_role == r then rest else x ∷ rest

-- `session.delete(user_role)`
unfoldable pub without_assignment : ℕ → List UserRole → List UserRole
without_assignment i [] = []
without_assignment i (x ∷ xs) =
    let rest = without_assignment i xs in if x.assignment_id == i then rest else x ∷ rest

-- `x in xs` for ids.
unfoldable pub member : ℕ → List ℕ → Bool
member x [] = false
member x (y ∷ ys) = if y == x then true else member x ys

-- The flush of a new assignment: the user and the role are there, and the user has none yet.
unfoldable pub insert_assignment : UserRole → Action Tables (Unit {0})
insert_assignment x t =
    if is_some (find_role x.assigned_role t.roles)
      && ((member x.user_id t.users && member x.assigned_by t.users)
          && not (is_some (role_of_user x.user_id t.user_roles)))
    then (ok tt, with_user_roles (t.user_roles ++ x ∷ []) t)
    else (raised other, t)

-- Some assignment refers to the role.
unfoldable pub any_with_role : ℕ → List UserRole → Bool
any_with_role r [] = false
any_with_role r (x ∷ xs) = if x.assigned_role == r then true else any_with_role r xs

abbrev pub is_empty {ℓ} : {A : Type ℓ} → List A → Bool
is_empty [] = true
is_empty (_ ∷ _) = false

-- The flush of a role's deletion: no row may refer to it.
unfoldable pub delete_role_row : ℕ → Action Tables (Unit {0})
delete_role_row id t =
    if is_empty (groups_of id t.role_groups) && not (any_with_role id t.user_roles)
    then (ok tt, with_roles (remove_role id t.roles) t)
    else (raised other, t)
