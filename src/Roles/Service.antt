-- ===== src/Roles/Service.antt =====
-- The services that change roles and assignments: create_role, update_role, set_default_role and
-- delete_role of apps/app/modules/role/service/role_service.py, and assign_role, remove_assignment
-- and set_user_role of apps/app/modules/user/service/user_role_service.py.
-- The id of a new row comes from the database's sequence and is an argument.
pub mod Granting
pub mod Consistent
pub mod Operations
pub mod Sequences
pub mod Outcomes
use remote_connect_backend.Base.{
  ℕ, Bool, true, false, not, ◌&&◌, Option, none, some, is_some, List, [], ◌∷◌, ◌++◌, if◌then◌else◌,
  ◌==◌,
}
use remote_connect_backend.Base.Text.{Text, contains}
use remote_connect_backend.Base.Dict.{lookup_or, insert, setdefault}
use remote_connect_backend.Base.Action.{
  Action, ok, raised, pure, raise, gets, modify, ◌>>=◌, ◌>>◌, http, other,
}
use remote_connect_backend.Roles.Groups.{SyncGroup}
use remote_connect_backend.Roles.Permissions.{Permissions}
use remote_connect_backend.Roles.Rows.{Row, resolve_role_group_rows}
use remote_connect_backend.Roles.Tables.{
  Role, RoleGroup, UserRole, Tables, with_roles, with_role_groups, with_user_roles, find_role,
  with_default, clear_default, change_role, groups_of, groups_without, new_groups, role_of_user,
  user_with_role, find_assignment, without_user, without_role, without_assignment, member,
  insert_assignment, delete_role_row,
}

-- `_build_permissions_map`, from the dict built so far.
unfoldable pub build_permissions_map : Permissions → List RoleGroup → Permissions
build_permissions_map permissions [] = permissions
build_permissions_map permissions (x ∷ xs) =
    let d = setdefault x.row.row_group_id [] permissions in
    build_permissions_map
      (insert x.row.row_group_id (lookup_or [] x.row.row_group_id d ++ x.row.row_permission ∷ []) d)
      xs

-- `_serialize_role`, without the names of users and the times.
unfoldable pub serialize_role : Role → List RoleGroup → Role × Permissions
serialize_role role role_groups = (role, build_permissions_map [] role_groups)

abbrev pub reply : Role → Action Tables (Role × Permissions)
reply role = gets λ t. serialize_role role (groups_of role.role_id t.role_groups)

-- `create_for_role(role.id, _resolve_role_group_rows(permissions))`
abbrev pub create_for_role : ℕ → Option (List Row) → Action Tables (Unit {0})
create_for_role id none t = raise other t
create_for_role id (some rows) t = (ok tt, with_role_groups (t.role_groups ++ new_groups id rows) t)

unfoldable pub add_permissions : List SyncGroup → ℕ → Option Permissions → Action Tables (Unit {0})
add_permissions all_groups id permissions t =
    create_for_role id (resolve_role_group_rows all_groups permissions) t

-- The flush of a new role: its id is new and its author is a user.
unfoldable pub insert_role : Role → Action Tables (Unit {0})
insert_role role t =
    if member role.created_by_user_id t.users && not (is_some (find_role role.role_id t.roles))
    then (ok tt, with_roles (t.roles ++ role ∷ []) t)
    else (raised other, t)

-- `role_data` of `create_role` and of `update_role`.
pub record RoleData : Type 0 where
  pub name : Text
  pub description : Option Text
  pub created_by : ℕ
  pub permissions : Option Permissions

pub record RoleChange : Type 0 where
  pub new_name : Option Text
  pub new_description : Option Text
  pub new_enabled : Option Bool
  pub changed_by : Option ℕ
  pub new_permissions : Option Permissions

abbrev pub new_role : ℕ → RoleData → Role
new_role id role_data = record {
  role_id = id;
  role_name = role_data.name;
  role_description = role_data.description;
  enabled = true;
  is_default = false;
  created_by_user_id = role_data.created_by;
  updated_by_user_id = some role_data.created_by;
}

unfoldable pub create_role : List SyncGroup → ℕ → RoleData → Action Tables (Role × Permissions)
create_role all_groups id role_data =
    insert_role (new_role id role_data)
    >> add_permissions all_groups id role_data.permissions
    >> reply (new_role id role_data)

abbrev pub or_else {ℓ} : {A : Type ℓ} → Option A → A → A
or_else none old = old
or_else (some new) old = new

abbrev pub either_of {ℓ} : {A : Type ℓ} → Option A → Option A → Option A
either_of none old = old
either_of (some new) old = some new

unfoldable pub changed_role : RoleChange → Role → Role
changed_role change role = record {
  role_id = role.role_id;
  role_name = or_else change.new_name role.role_name;
  role_description = either_of change.new_description role.role_description;
  enabled = or_else change.new_enabled role.enabled;
  is_default = role.is_default;
  created_by_user_id = role.created_by_user_id;
  updated_by_user_id = either_of change.changed_by role.updated_by_user_id;
}

abbrev pub is_user : Option ℕ → Tables → Bool
is_user none t = true
is_user (some u) t = member u t.users

-- The flush of a changed role: who changed it is a user.
unfoldable pub flush_role : (Role → Role) → ℕ → Option ℕ → Action Tables (Unit {0})
flush_role f id user t =
    if is_user user t then (ok tt, with_roles (change_role f id t.roles) t) else (raised other, t)

-- `delete_by_role_id` and `create_for_role`
abbrev pub replace_rows : ℕ → Option (List Row) → Action Tables (Unit {0})
replace_rows id none t = raise other t
replace_rows id (some rows) t =
    (ok tt, with_role_groups (groups_without id t.role_groups ++ new_groups id rows) t)

unfoldable pub replace_permissions :
    List SyncGroup → ℕ → Option Permissions → Action Tables (Unit {0})
replace_permissions all_groups id none t = pure tt t
replace_permissions all_groups id (some permissions) t =
    replace_rows id (resolve_role_group_rows all_groups (some permissions)) t

abbrev pub update_found :
    List SyncGroup → ℕ → RoleChange → Option Role → Action Tables (Role × Permissions)
update_found all_groups id change none t = raise (http 404) t
update_found all_groups id change (some role) t =
    (flush_role (changed_role change) id change.changed_by
        >> replace_permissions all_groups id change.new_permissions
        >> reply (changed_role change role))
      t

unfoldable pub update_role : List SyncGroup → ℕ → RoleChange → Action Tables (Role × Permissions)
update_role all_groups id change t = update_found all_groups id change (find_role id t.roles) t

-- The rows after `clear_default_flag`, `role.is_default = True` and the deletion of assignments.
unfoldable pub make_default : ℕ → Tables → Tables
make_default id t =
    with_user_roles (without_role id t.user_roles)
      (with_roles (change_role (with_default true) id (clear_default t.roles)) t)

abbrev pub set_found : ℕ → Bool → Option Role → Action Tables (Role × Permissions)
set_found id is_default none t = raise (http 404) t
set_found id true (some role) t = reply (with_default true role) (make_default id t)
set_found id false (some role) t =
    reply (with_default false role) (with_roles (change_role (with_default false) id t.roles) t)

unfoldable pub set_default_role : ℕ → Bool → Action Tables (Role × Permissions)
set_default_role id is_default t = set_found id is_default (find_role id t.roles) t

-- The tables after the deletion of the role groups and of the assignments.
unfoldable pub without_references : ℕ → Tables → Tables
without_references id t =
    with_user_roles (without_role id t.user_roles)
      (with_role_groups (groups_without id t.role_groups) t)

abbrev pub delete_found : ℕ → Option Role → Action Tables (Unit {0})
delete_found id none t = raise (http 404) t
delete_found id (some role) t =
    if role.is_default then (raised (http 400), t) else delete_role_row id (without_references id t)

unfoldable pub delete_role : ℕ → Action Tables (Unit {0})
delete_role id t = delete_found id (find_role id t.roles) t

abbrev pub new_assignment : ℕ → ℕ → ℕ → ℕ → UserRole
new_assignment id user role actor = record {
  assignment_id = id;
  user_id = user;
  assigned_role = role;
  assigned_by = actor;
}

abbrev pub delete_by_user_id : ℕ → Tables → Tables
delete_by_user_id user t = with_user_roles (without_user user t.user_roles) t

unfoldable pub assign_role : ℕ → ℕ → ℕ → ℕ → Action Tables UserRole
assign_role id user role actor t =
    if is_some (user_with_role user role t.user_roles)
    then (raised (http 400), t)
    else (insert_assignment (new_assignment id user role actor)
          >> pure (new_assignment id user role actor))
        (delete_by_user_id user t)

abbrev pub remove_found : ℕ → Option UserRole → Action Tables (Unit {0})
remove_found id none t = raise (http 404) t
remove_found id (some _) t = (ok tt, with_user_roles (without_assignment id t.user_roles) t)

unfoldable pub remove_assignment : ℕ → Action Tables (Unit {0})
remove_assignment id t = remove_found id (find_assignment id t.user_roles) t

abbrev pub role_of : Option UserRole → Option ℕ
role_of none = none
role_of (some x) = some x.assigned_role

abbrev pub same_role : Option ℕ → Option ℕ → Bool
same_role none none = true
same_role none (some _) = false
same_role (some _) none = false
same_role (some a) (some b) = a == b

-- `if role_id:`, false for None and for 0.
abbrev pub insert_if_given : ℕ → ℕ → Option ℕ → ℕ → Action Tables (Unit {0})
insert_if_given id user none actor t = pure tt t
insert_if_given id user (some role) actor t =
    if role == 0 then (ok tt, t) else insert_assignment (new_assignment id user role actor) t

unfoldable pub set_user_role : ℕ → ℕ → Option ℕ → ℕ → Action Tables (Unit {0})
set_user_role id user role actor t =
    if same_role (role_of (role_of_user user t.user_roles)) role
    then (ok tt, t)
    else insert_if_given id user role actor (delete_by_user_id user t)
