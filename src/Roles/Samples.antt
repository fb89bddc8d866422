-- ===== src/Roles/Samples.antt =====
-- A small tree of groups, and some tables of roles.
use remote_connect_backend.Base.{◌≡◌, refl, true, false, none, some, is_some, List, [], ◌∷◌}
use remote_connect_backend.Base.Text.{codes}
use remote_connect_backend.Roles.Groups.{
  SyncGroup, sync_group, no_items, item, flatten, flatten_group, flatten_items,
}
use remote_connect_backend.Roles.Groups.Ancestors.{ids_of, Distinct}
use remote_connect_backend.Roles.Permissions.{Permissions}
use remote_connect_backend.Roles.Tables.{Role, Tables, find_role, groups_of, member}
use remote_connect_backend.Roles.Service.{RoleData, RoleChange}

-- The group "b" is an item of the group "a".
abbrev pub tree : List SyncGroup
tree =
    sync_group (codes "a") (codes "A") (codes "") (codes "") (
      item (codes "b") (sync_group (codes "b") (codes "B") (codes "") (codes "") no_items) no_items)
    ∷ []

pub tree-Distinct : Distinct (ids_of (flatten tree))
unfolding flatten flatten_group flatten_items
tree-Distinct = (refl, (refl, tt))

-- DELETE on the lower group.
abbrev pub wanted : Permissions
wanted = (codes "b", codes "DELETE" ∷ []) ∷ []

-- Users 7 and 8; role 1 is the default, role 2 is the role of user 8.
abbrev pub staff : Role
staff = record {
  role_id = 2;
  role_name = codes "staff";
  role_description = none;
  enabled = true;
  is_default = false;
  created_by_user_id = 7;
  updated_by_user_id = none;
}

abbrev pub guest : Role
guest = record {
  role_id = 1;
  role_name = codes "guest";
  role_description = none;
  enabled = true;
  is_default = true;
  created_by_user_id = 7;
  updated_by_user_id = none;
}

abbrev pub tables : Tables
tables = record {
  roles = guest ∷ staff ∷ [];
  role_groups = [];
  user_roles = record { assignment_id = 5; user_id = 8; assigned_role = 2; assigned_by = 7 } ∷ [];
  users = 7 ∷ 8 ∷ [];
}

abbrev pub change : RoleChange
change = record {
  new_name = some (codes "support");
  new_description = none;
  new_enabled = none;
  changed_by = some 7;
  new_permissions = some wanted;
}

abbrev pub role_data : RoleData
role_data = record {
  name = codes "auditor";
  description = none;
  created_by = 7;
  permissions = some wanted;
}

pub tables_staff : find_role 2 tables.roles ≡ some staff
unfolding find_role
tables_staff = refl

pub tables_free : is_some (find_role 3 tables.roles) ≡ false
unfolding find_role
tables_free = refl

pub tables_bare : groups_of 3 tables.role_groups ≡ []
unfolding groups_of
tables_bare = refl

pub seven_in : member 7 tables.users ≡ true
unfolding member
seven_in = refl
