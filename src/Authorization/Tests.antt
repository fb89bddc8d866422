-- ===== src/Authorization/Tests.antt =====
-- A request under the sample tables of roles, and the theorems at it.
use remote_connect_backend.Base.{◌≡◌, refl, ◌↔◌, true, false, none, some, is_some, [], ◌∷◌}
use remote_connect_backend.Base.Text.{codes}
use remote_connect_backend.Roles.Groups.{flatten, get_group, ancestors_of}
use remote_connect_backend.Roles.Permissions.Fixpoint.{Needed}
use remote_connect_backend.Roles.Rows.{is_valid}
use remote_connect_backend.Roles.Tables.{has_permission}
use remote_connect_backend.Roles.Service.{update_role, set_default_role}
use remote_connect_backend.Roles.Samples.{
  tree, tree-Distinct, wanted, staff, tables, change, tables_staff, seven_in,
}
use remote_connect_backend.Authorization.{
  Middleware, User, Request, passed_on, starts_with, without_prefix, rstrip, normalized_path,
  is_under, bound_group, relative_path, resolve_group_id, matches, required_permission, dispatch,
}
use remote_connect_backend.Authorization.Decision.{
  Checks, dispatch-update_role, dispatch-set_default_role,
}

abbrev middleware : Middleware
middleware = record {
  admin_only_method_paths = (codes "PATCH", λ path. true) ∷ [];
  permission_exempt_method_paths = [];
  local_only_method_paths = [];
  permission_overrides = [];
  api_prefix = codes "/api";
  route_bindings = (codes "/a/b", some (codes "b")) ∷ [];
  all_groups = flatten tree;
}

abbrev of_role : User
of_role = record { custom_permissions = none; effective_is_admin = false; role_id = some 2 }

abbrev of_none : User
of_none = record { custom_permissions = none; effective_is_admin = false; role_id = none }

abbrev request : User → Request
request user = record { method = codes "DELETE"; path = codes "/api/a/b/17/"; user = some user }

request-Checks : Checks middleware (request of_role) of_role (some 2) (codes "b") (codes "DELETE")
unfolding is_valid starts_with without_prefix rstrip normalized_path is_under bound_group
    relative_path resolve_group_id matches required_permission
request-Checks = record {
  is_checked = refl;
  not_exempt = refl;
  by_user = refl;
  no_custom = refl;
  no_admin = refl;
  with_role = refl;
  on_group = refl;
  group_named = refl;
  for_method = refl;
}

roleless-Checks : Checks middleware (request of_none) of_none none (codes "b") (codes "DELETE")
unfolding is_valid starts_with without_prefix rstrip normalized_path is_under bound_group
    relative_path resolve_group_id matches required_permission
roleless-Checks = record {
  is_checked = refl;
  not_exempt = refl;
  by_user = refl;
  no_custom = refl;
  no_admin = refl;
  with_role = refl;
  on_group = refl;
  group_named = refl;
  for_method = refl;
}

dispatch-update_role_example :
    (dispatch middleware (request of_role) (update_role (flatten tree) 2 change tables).1
      ≡ passed_on)
    ↔ ((is_some (get_group (flatten tree) (codes "b")) ≡ true)
        × (is_valid (codes "DELETE") ≡ true)
        × Needed (ancestors_of (flatten tree)) wanted (codes "b") (codes "DELETE"))
dispatch-update_role_example =
    dispatch-update_role tree tree-Distinct tables 1 staff change wanted tables_staff seven_in refl
      middleware (request of_role) of_role (codes "b") (codes "DELETE") request-Checks

dispatch-set_default_role_example :
    (dispatch middleware (request of_none) (set_default_role 2 true tables).1 ≡ passed_on)
    ↔ (has_permission 2 (codes "b") (codes "DELETE") tables.role_groups ≡ true)
dispatch-set_default_role_example =
    dispatch-set_default_role tables 1 staff tables_staff middleware (request of_none) of_none
      (codes "b") (codes "DELETE") roleless-Checks
