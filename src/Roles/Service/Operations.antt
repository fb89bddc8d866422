-- ===== src/Roles/Service/Operations.antt =====
-- Each operation on roles and assignments keeps the tables consistent.
use remote_connect_backend.Base.{
  ℕ, ◌≡◌, refl, ◌∙◌, ap, Bool, true, false, not, ◌&&◌, Option, none, some, is_some, List, [], ◌∷◌,
  ◌++◌, arith, ◌==◌, ==_self, if_cases,
}
use remote_connect_backend.Base.Action.{Result, ok, raised, other, http, pure, ◌>>◌, >>-preserves}
use remote_connect_backend.Roles.Groups.{SyncGroup}
use remote_connect_backend.Roles.Permissions.{Permissions}
use remote_connect_backend.Roles.Rows.{Row, resolve_role_group_rows}
use remote_connect_backend.Roles.Tables.{
  Role, UserRole, Tables, with_roles, with_role_groups, find_role, with_default, groups_without,
  role_of_user, user_with_role, without_user, without_role, without_assignment, member,
  insert_assignment, delete_role_row,
}
use remote_connect_backend.Roles.Tables.Queries.{
  find_role-with_id, find_role-append, with_id-append, defaults-append, defaults-unset,
  find_role-change_role,
}
use remote_connect_backend.Roles.Tables.References.{
  any_with_role-without_role, any_with_role-without_user, any_with_role-without_assignment,
  assignments-without_user, assignments-without_role, assignments-without_assignment,
}
use remote_connect_backend.Roles.Service.{
  create_for_role, add_permissions, insert_role, RoleData, RoleChange, new_role, create_role,
  changed_role, flush_role, replace_rows, reply, replace_permissions, update_found, set_found,
  without_references, delete_found, new_assignment, delete_by_user_id, assign_role, remove_found,
  insert_if_given, role_of, same_role, set_user_role,
}
use remote_connect_backend.Roles.Service.Consistent.{
  Consistent, roles-Consistent, change_role-Consistent, new_groups-Consistent,
  groups_without-Consistent, user_roles-Consistent, insert_assignment-Consistent,
  delete_role_row-Consistent, flush_role-Consistent, make_default-Consistent,
}

insert_role-Consistent :
    (role : Role) (t : Tables)
    → role.is_default ≡ false
    → Consistent t
    → Consistent (insert_role role t).1
unfolding insert_role
insert_role-Consistent role t plain c =
    if_cases (λ (s : Result (Unit {0}) × Tables). Consistent s.1)
      (member role.created_by_user_id t.users && not (is_some (find_role role.role_id t.roles)))
      (ok tt, with_roles (t.roles ++ role ∷ []) t) (raised other, t)
      (λ h.
        roles-Consistent t (t.roles ++ role ∷ []) c
          (λ id. ground (
            arith,
            with_id-append id t.roles role,
            c.one_role id,
            find_role-with_id role.role_id t.roles,
          ))
          (ground (arith, defaults-append t.roles role, c.one_default, plain))
          (λ id g. ground (arith, find_role-append id t.roles role)))
      (λ _. c)

insert_role-has_id :
    (role : Role) (t : Tables)
    → (insert_role role t).0 ≡ ok tt
    → is_some (find_role role.role_id (insert_role role t).1.roles) ≡ true
unfolding insert_role
insert_role-has_id role t done =
    ground (arith, find_role-append role.role_id t.roles role, ==_self role.role_id)

create_for_role-Consistent :
    (id : ℕ) (rows : Option (List Row)) (t : Tables)
    → Consistent t
    → is_some (find_role id t.roles) ≡ true
    → Consistent (create_for_role id rows t).1
create_for_role-Consistent id none t c there = c
create_for_role-Consistent id (some rows) t c there = new_groups-Consistent t rows id c there

pub create_role-Consistent :
    (all_groups : List SyncGroup) (id : ℕ) (role_data : RoleData) (t : Tables)
    → Consistent t
    → Consistent (create_role all_groups id role_data t).1
unfolding create_role add_permissions
create_role-Consistent all_groups id role_data t c =
    let role = new_role id role_data in
    let add = add_permissions all_groups id role_data.permissions in
    let kept =
      >>-preserves Consistent (insert_role role) add t (insert_role-Consistent role t refl c)
        (λ done.
          create_for_role-Consistent id (resolve_role_group_rows all_groups role_data.permissions)
            (insert_role role t).1 (insert_role-Consistent role t refl c)
            (insert_role-has_id role t done)) in
    >>-preserves Consistent (insert_role role >> add) (reply role) t kept (λ _. kept)

replace_rows-Consistent :
    (id : ℕ) (rows : Option (List Row)) (t : Tables)
    → Consistent t
    → is_some (find_role id t.roles) ≡ true
    → Consistent (replace_rows id rows t).1
replace_rows-Consistent id none t c there = c
replace_rows-Consistent id (some rows) t c there =
    new_groups-Consistent (with_role_groups (groups_without id t.role_groups) t) rows id
      (groups_without-Consistent t id c) there

replace_permissions-Consistent :
    (all_groups : List SyncGroup) (id : ℕ) (permissions : Option Permissions) (t : Tables)
    → Consistent t
    → is_some (find_role id t.roles) ≡ true
    → Consistent (replace_permissions all_groups id permissions t).1
unfolding replace_permissions
replace_permissions-Consistent all_groups id none t c there = c
replace_permissions-Consistent all_groups id (some permissions) t c there =
    replace_rows-Consistent id (resolve_role_group_rows all_groups (some permissions)) t c there

flush_role-has_id :
    (change : RoleChange) (id : ℕ) (user : Option ℕ) (t : Tables)
    → is_some (find_role id t.roles) ≡ true
    → is_some (find_role id (flush_role (changed_role change) id user t).1.roles) ≡ true
unfolding flush_role changed_role
flush_role-has_id change id user t there =
    ground (arith, find_role-change_role (changed_role change) (λ r. refl) id id t.roles)

pub update_found-Consistent :
    (all_groups : List SyncGroup) (id : ℕ) (change : RoleChange) (t : Tables) (found : Option Role)
    → find_role id t.roles ≡ found
    → Consistent t
    → Consistent (update_found all_groups id change found t).1
update_found-Consistent all_groups id change t none e c = c
update_found-Consistent all_groups id change t (some role) e c =
    let flush = flush_role (changed_role change) id change.changed_by in
    let replace = replace_permissions all_groups id change.new_permissions in
    let first = flush_role-Consistent change id change.changed_by t c in
    let there = flush_role-has_id change id change.changed_by t (ap is_some e) in
    let kept = >>-preserves Consistent flush replace t first (λ _.
      replace_permissions-Consistent all_groups id change.new_permissions (flush t).1 first
        there) in
    >>-preserves Consistent (flush >> replace) (reply (changed_role change role)) t kept (λ _. kept)

pub set_found-Consistent :
    (id : ℕ) (is_default : Bool) (t : Tables) (found : Option Role)
    → Consistent t
    → Consistent (set_found id is_default found t).1
set_found-Consistent id is_default t none c = c
set_found-Consistent id true t (some role) c = make_default-Consistent id t c
set_found-Consistent id false t (some role) c =
    change_role-Consistent (with_default false) (λ r. refl) id t c
      (omega (arith, c.one_default, defaults-unset id t.roles))

pub delete_found-Consistent :
    (id : ℕ) (t : Tables) (found : Option Role)
    → Consistent t
    → Consistent (delete_found id found t).1
unfolding without_references
delete_found-Consistent id t none c = c
delete_found-Consistent id t (some role) c =
    if_cases (λ (s : Result (Unit {0}) × Tables). Consistent s.1) role.is_default
      (raised (http 400), t) (delete_role_row id (without_references id t)) (λ _. c)
      (λ _. delete_role_row-Consistent id (without_references id t) (
        user_roles-Consistent (with_role_groups (groups_without id t.role_groups) t)
          (without_role id t.user_roles) (groups_without-Consistent t id c)
          (λ r h. any_with_role-without_role id r t.user_roles ∙ ground arith)
          (λ u. assignments-without_role id u t.user_roles)))

delete_by_user_id-Consistent :
    (user : ℕ) (t : Tables) → Consistent t → Consistent (delete_by_user_id user t)
delete_by_user_id-Consistent user t c =
    user_roles-Consistent t (without_user user t.user_roles) c
      (λ r. any_with_role-without_user user r t.user_roles)
      (λ u. assignments-without_user user u t.user_roles)

pub assign_role-Consistent :
    (id user role actor : ℕ) (t : Tables)
    → Consistent t
    → Consistent (assign_role id user role actor t).1
unfolding assign_role
assign_role-Consistent id user role actor t c =
    let x = new_assignment id user role actor in
    let s = delete_by_user_id user t in
    let kept = insert_assignment-Consistent x s (delete_by_user_id-Consistent user t c) in
    if_cases (λ (s : Result UserRole × Tables). Consistent s.1)
      (is_some (user_with_role user role t.user_roles)) (raised (http 400), t)
      ((insert_assignment x >> pure x) s) (λ _. c)
      (λ _. >>-preserves Consistent (insert_assignment x) (pure x) s kept (λ _. kept))

pub remove_found-Consistent :
    (id : ℕ) (t : Tables) (found : Option UserRole)
    → Consistent t
    → Consistent (remove_found id found t).1
remove_found-Consistent id t none c = c
remove_found-Consistent id t (some x) c =
    user_roles-Consistent t (without_assignment id t.user_roles) c
      (λ r. any_with_role-without_assignment id r t.user_roles)
      (λ u. assignments-without_assignment id u t.user_roles)

insert_if_given-Consistent :
    (id user : ℕ) (role : Option ℕ) (actor : ℕ) (t : Tables)
    → Consistent t
    → Consistent (insert_if_given id user role actor t).1
insert_if_given-Consistent id user none actor t c = c
insert_if_given-Consistent id user (some role) actor t c =
    if_cases (λ (s : Result (Unit {0}) × Tables). Consistent s.1) (role == 0) (ok tt, t)
      (insert_assignment (new_assignment id user role actor) t) (λ _. c)
      (λ _. insert_assignment-Consistent (new_assignment id user role actor) t c)

pub set_user_role-Consistent :
    (id user : ℕ) (role : Option ℕ) (actor : ℕ) (t : Tables)
    → Consistent t
    → Consistent (set_user_role id user role actor t).1
unfolding set_user_role
set_user_role-Consistent id user role actor t c =
    if_cases (λ (s : Result (Unit {0}) × Tables). Consistent s.1)
      (same_role (role_of (role_of_user user t.user_roles)) role) (ok tt, t)
      (insert_if_given id user role actor (delete_by_user_id user t)) (λ _. c)
      (λ _.
        insert_if_given-Consistent id user role actor (delete_by_user_id user t)
          (delete_by_user_id-Consistent user t c))
