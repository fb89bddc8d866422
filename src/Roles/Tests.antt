-- ===== src/Roles/Tests.antt =====
-- The theorems on roles at concrete inputs.
use remote_connect_backend.Base.{
  ℕ, ◌≡◌, ◌≢◌, refl, ap, ◌↔◌, true, false, none, some, is_some, List, [], ◌∷◌, arith,
}
use remote_connect_backend.Base.Text.{Text, codes, contains}
use remote_connect_backend.Base.Action.{ok}
use remote_connect_backend.Roles.Groups.{flatten, get_group, get_ancestor_ids, ancestors_of}
use remote_connect_backend.Roles.Groups.Climb.{Above, get_ancestor_ids_lem, ancestors_of_trans}
use remote_connect_backend.Roles.Permissions.{Permissions, apply_permission_dependencies}
use remote_connect_backend.Roles.Permissions.Adding.{has}
use remote_connect_backend.Roles.Permissions.Fixpoint.{Needed, apply_permission_dependencies-Needed}
use remote_connect_backend.Roles.Rows.{
  Row, has_row, is_valid, resolve_role_group_rows, resolve_role_group_rows_lem,
}
use remote_connect_backend.Roles.Tables.{
  Tables, find_role, default_role, with_default, groups_of, has_permission, role_of_user,
  any_with_role,
}
use remote_connect_backend.Roles.Tables.Queries.{with_id, defaults}
use remote_connect_backend.Roles.Tables.References.{assignments}
use remote_connect_backend.Roles.Service.{
  new_role, create_role, changed_role, update_role, set_default_role, delete_role, role_of,
  set_user_role,
}
use remote_connect_backend.Roles.Service.Granting.{Grants, update_role-Grants, create_role-Grants}
use remote_connect_backend.Roles.Service.Consistent.{Consistent}
use remote_connect_backend.Roles.Service.Sequences.{
  create, update, set_default, delete, assign, RoleOp, after_all, after_all-Consistent,
}
use remote_connect_backend.Roles.Service.Outcomes.{
  set_default_role-one, delete_role-cascade, set_user_role-some,
}
use remote_connect_backend.Roles.Samples.{
  tree, tree-Distinct, wanted, staff, tables, change, role_data, tables_staff, tables_free,
  tables_bare, seven_in,
}

get_ancestor_ids_lem_example :
    (ids : List Text) × (get_ancestor_ids (flatten tree) (codes "b") ≡ some ids)
    × ((a : Text) → (contains a ids ≡ true) ↔ Above (flatten tree) a (codes "b"))
get_ancestor_ids_lem_example = get_ancestor_ids_lem tree tree-Distinct (codes "b")

apply_permission_dependencies-Needed_example :
    (r : Permissions) × (apply_permission_dependencies (ancestors_of (flatten tree)) (some wanted)
      ≡ some r)
    × ((g m : Text) → (has r g m ≡ true) ↔ Needed (ancestors_of (flatten tree)) wanted g m)
apply_permission_dependencies-Needed_example =
    apply_permission_dependencies-Needed (ancestors_of (flatten tree)) wanted
      (ancestors_of_trans tree tree-Distinct)

resolve_role_group_rows_lem_example :
    (rows : List Row) × (resolve_role_group_rows (flatten tree) (some wanted) ≡ some rows)
    × ((g m : Text)
        → (has_row g m rows ≡ true) ↔ (
            (is_some (get_group (flatten tree) g) ≡ true)
            × (is_valid m ≡ true)
            × Needed (ancestors_of (flatten tree)) wanted g m))
resolve_role_group_rows_lem_example = resolve_role_group_rows_lem tree tree-Distinct wanted

update_role-Grants_example :
    (shown : Permissions) × (t' : Tables) × (update_role (flatten tree) 2 change tables
      ≡ (ok (changed_role change staff, shown), t'))
    × Grants (flatten tree) wanted 2 t'.role_groups
    × ((g m : Text) → has shown g m ≡ has_permission 2 g m t'.role_groups)
    × ((j : ℕ) (g m : Text)
        → j ≢ 2
        → has_permission j g m t'.role_groups ≡ has_permission j g m tables.role_groups)
update_role-Grants_example =
    update_role-Grants tree tree-Distinct tables 2 staff change wanted tables_staff seven_in refl

create_role-Grants_example :
    (shown : Permissions) × (t' : Tables) × (create_role (flatten tree) 3 role_data tables
      ≡ (ok (new_role 3 role_data, shown), t'))
    × Grants (flatten tree) wanted 3 t'.role_groups
    × ((g m : Text) → has shown g m ≡ has_permission 3 g m t'.role_groups)
    × ((j : ℕ) (g m : Text)
        → j ≢ 3
        → has_permission j g m t'.role_groups ≡ has_permission j g m tables.role_groups)
create_role-Grants_example =
    create_role-Grants tree tree-Distinct tables 3 role_data wanted tables_free tables_bare seven_in
      refl

set_default_role-one_example :
    (shown : Permissions) × (t' : Tables) × (set_default_role 2 true tables
      ≡ (ok (with_default true staff, shown), t'))
    × (default_role t'.roles ≡ some (with_default true staff))
    × (defaults t'.roles ≡ 1)
    × (any_with_role 2 t'.user_roles ≡ false)
    × (t'.role_groups ≡ tables.role_groups)
set_default_role-one_example = set_default_role-one tables 2 staff tables_staff

delete_role-cascade_example :
    (t' : Tables) × (delete_role 2 tables ≡ (ok tt, t'))
    × (find_role 2 t'.roles ≡ none)
    × (groups_of 2 t'.role_groups ≡ [])
    × (any_with_role 2 t'.user_roles ≡ false)
    × ((j : ℕ) → j ≢ 2 → find_role j t'.roles ≡ find_role j tables.roles)
    × ((j : ℕ) → j ≢ 2 → groups_of j t'.role_groups ≡ groups_of j tables.role_groups)
delete_role-cascade_example = delete_role-cascade tables 2 staff tables_staff refl

set_user_role-some_example :
    (t' : Tables) × (set_user_role 9 7 (some 2) 7 tables ≡ (ok tt, t'))
    × (role_of (role_of_user 7 t'.user_roles) ≡ some 2)
    × ((u : ℕ) → u ≢ 7 → role_of_user u t'.user_roles ≡ role_of_user u tables.user_roles)
set_user_role-some_example =
    set_user_role-some tables 9 7 2 7 seven_in seven_in (ap is_some tables_staff) refl

abbrev nothing_yet : Tables
nothing_yet = record { roles = []; role_groups = []; user_roles = []; users = 7 ∷ 8 ∷ [] }

nothing_yet-Consistent : Consistent nothing_yet
unfolding with_id defaults groups_of any_with_role assignments
nothing_yet-Consistent = record {
  one_role = λ id. omega arith;
  one_default = omega arith;
  groups_refer = λ id h. refl;
  assigned_refer = λ id h. refl;
  one_assignment = λ u. omega arith;
}

abbrev requests : List RoleOp
requests =
    create 1 role_data
    ∷ create 2 role_data
    ∷ set_default 1 true
    ∷ assign 5 8 2 7
    ∷ set_default 2 true
    ∷ update 1 change
    ∷ delete 1
    ∷ []

after_all-Consistent_example : Consistent (after_all (flatten tree) requests nothing_yet)
after_all-Consistent_example =
    after_all-Consistent (flatten tree) requests nothing_yet nothing_yet-Consistent
