-- ===== src/Roles/Service/Granting.antt =====
-- What a role may do after `create_role` and `update_role`: `RoleGroupRepository.has_permission`
-- against what the given permissions need.
use remote_connect_backend.Base.{
  ℕ, ◌≡◌, ◌≢◌, refl, ◌∙◌, ap, ◌↔◌, true, false, Option, some, is_some, List, [], ◌∷◌, ◌++◌, arith,
  if◌then◌else◌, ◌==◌,
}
use remote_connect_backend.Base.Text.{Text, ≐_comm, eq_of-≐}
use remote_connect_backend.Base.Dict.{lookup_or, insert, setdefault}
use remote_connect_backend.Base.Action.{ok, raised, other, ◌>>◌, >>-step}
use remote_connect_backend.Roles.Groups.{SyncGroup, flatten, get_group, ancestors_of}
use remote_connect_backend.Roles.Groups.Ancestors.{ids_of, Distinct}
use remote_connect_backend.Roles.Permissions.{Permissions}
use remote_connect_backend.Roles.Permissions.Adding.{
  has, has-insert, has-setdefault, contains-append_one,
}
use remote_connect_backend.Roles.Permissions.Fixpoint.{Needed}
use remote_connect_backend.Roles.Rows.{
  Row, has_row, is_valid, resolve_role_group_rows, resolve_role_group_rows_lem,
}
use remote_connect_backend.Roles.Tables.{
  Role, RoleGroup, Tables, with_roles, with_role_groups, find_role, change_role, groups_of,
  groups_without, new_groups, has_permission, member,
}
use remote_connect_backend.Roles.Tables.References.{
  has_permission-append, has_permission-groups_without, has_permission-new_groups,
  has_permission-none,
}
use remote_connect_backend.Roles.Service.{
  build_permissions_map, serialize_role, reply, create_for_role, add_permissions, insert_role,
  RoleData, RoleChange, new_role, create_role, changed_role, is_user, flush_role, replace_rows,
  replace_permissions, update_found, update_role,
}

-- The role may use the method on the group exactly if the permissions need it.
abbrev pub Grants : List SyncGroup → Permissions → ℕ → List RoleGroup → Type 0
Grants all_groups p id xs =
    (g m : Text)
    → (has_permission id g m xs ≡ true) ↔ (
        (is_some (get_group all_groups g) ≡ true)
        × (is_valid m ≡ true)
        × Needed (ancestors_of all_groups) p g m)

-- The map that a reply shows is what the role groups say.
has-build_permissions_map :
    (id : ℕ) (g m : Text) (d : Permissions) (xs : List RoleGroup)
    → has (build_permissions_map d (groups_of id xs)) g m
      ≡ (if has d g m then true else has_permission id g m xs)
unfolding build_permissions_map groups_of has_permission
has-build_permissions_map id g m d [] = ground arith
has-build_permissions_map id g m d (x ∷ xs) =
    let k = x.row.row_group_id in
    let v = x.row.row_permission in
    let d' = setdefault k [] d in
    let ms = lookup_or [] k d' ++ v ∷ [] in
    ground (
      arith,
      has-build_permissions_map id g m d xs,
      has-build_permissions_map id g m (insert k ms d') xs,
      has-insert k g m ms d',
      has-setdefault k k m d,
      has-setdefault k g m d,
      contains-append_one m v (lookup_or [] k d'),
      eq_of-≐ k g,
      ≐_comm v m,
      ap (λ z. has d z m) {x = k} {y = g},
    )

has_permission-granted :
    (id j : ℕ) (g m : Text) (xs : List RoleGroup) (rows : List Row)
    → has_permission j g m (groups_without id xs ++ new_groups id rows)
      ≡ (if id == j then has_row g m rows else has_permission j g m xs)
has_permission-granted id j g m xs rows = ground (
  arith,
  has_permission-append j g m (groups_without id xs) (new_groups id rows),
  has_permission-groups_without id j g m xs,
  has_permission-new_groups id j g m rows,
)

pub find_role-role_id :
    (id : ℕ) (rs : List Role) (r : Role) → find_role id rs ≡ some r → r.role_id ≡ id
unfolding find_role
find_role-role_id id [] r h = absurd (ground arith)
find_role-role_id id (x ∷ rs) r h = ground (arith, find_role-role_id id rs r)

changed_role_id :
    (change : RoleChange) (role : Role) → (changed_role change role).role_id ≡ role.role_id
unfolding changed_role
changed_role_id change role = refl

flush_role-is_user :
    (f : Role → Role) (id : ℕ) (user : Option ℕ) (t : Tables)
    → is_user user t ≡ true
    → flush_role f id user t ≡ (ok tt, with_roles (change_role f id t.roles) t)
unfolding flush_role
flush_role-is_user f id user t h =
    ap (λ b. if b then (ok tt, with_roles (change_role f id t.roles) t) else (raised other, t)) h

replace_permissions-some :
    (all_groups : List SyncGroup) (id : ℕ) (p : Permissions) (rows : List Row) (t : Tables)
    → resolve_role_group_rows all_groups (some p) ≡ some rows
    → replace_permissions all_groups id (some p) t
      ≡ (ok tt, with_role_groups (groups_without id t.role_groups ++ new_groups id rows) t)
unfolding replace_permissions
replace_permissions-some all_groups id p rows t e = ap (λ o. replace_rows id o t) e

update_role-found :
    (all_groups : List SyncGroup) (id : ℕ) (role : Role) (change : RoleChange) (t : Tables)
    → find_role id t.roles ≡ some role
    → update_role all_groups id change t
      ≡ (flush_role (changed_role change) id change.changed_by
            >> replace_permissions all_groups id change.new_permissions
            >> reply (changed_role change role))
          t
unfolding update_role
update_role-found all_groups id role change t found =
    ap (λ o. update_found all_groups id change o t) found

-- Where the ids of the groups are distinct, an update with permissions of a role that is there, by a
-- user that is there, replies with the changed role. The role then may use a method on a group
-- exactly if the group is known, the method is valid and the permissions need it, and the reply
-- shows that. The permissions of the other roles are as they were.
pub update_role-Grants :
    (roots : List SyncGroup)
    → Distinct (ids_of (flatten roots))
    → (t : Tables) (id : ℕ) (role : Role) (change : RoleChange) (p : Permissions)
    → find_role id t.roles ≡ some role
    → is_user change.changed_by t ≡ true
    → change.new_permissions ≡ some p
    → (shown : Permissions) × (t' : Tables) × (update_role (flatten roots) id change t
        ≡ (ok (changed_role change role, shown), t'))
      × Grants (flatten roots) p id t'.role_groups
      × ((g m : Text) → has shown g m ≡ has_permission id g m t'.role_groups)
      × ((j : ℕ) (g m : Text)
          → j ≢ id
          → has_permission j g m t'.role_groups ≡ has_permission j g m t.role_groups)
unfolding serialize_role
update_role-Grants roots distinct t id role change p found by_user given =
    let (rows, e, need) = resolve_role_group_rows_lem roots distinct p in
    let gs = groups_without id t.role_groups ++ new_groups id rows in
    let same_id : role.role_id ≡ id = find_role-role_id id t.roles role found in
    let s = with_roles (change_role (changed_role change) id t.roles) t in
    let t' = with_role_groups gs s in
    let flush = flush_role (changed_role change) id change.changed_by in
    let replace = replace_permissions (flatten roots) id change.new_permissions in
    let answer = reply (changed_role change role) in
    let replaced : replace s ≡ (ok tt, t') =
      ap (λ o. replace_permissions (flatten roots) id o s) given
      ∙ replace_permissions-some (flatten roots) id p rows s e in
    (
      build_permissions_map [] (groups_of id gs),
      t',
      update_role-found (flatten roots) id role change t found
          ∙ >>-step (flush >> replace) answer t t' (
              >>-step flush replace t s
                (flush_role-is_user (changed_role change) id change.changed_by t by_user)
              ∙ replaced)
          ∙ ap (λ i. (ok (changed_role change role, build_permissions_map [] (groups_of i gs)), t'))
              (changed_role_id change role ∙ same_id),
      λ g m.
          let now = has_permission-granted id id g m t.role_groups rows in
          (λ h. (need g m).0 (ground (arith, now, h)), λ k. now ∙ ground (arith, (need g m).1 k)),
      λ g m. has-build_permissions_map id g m [] gs,
      λ j g m other. has_permission-granted id j g m t.role_groups rows ∙ ground arith,
    )

insert_role-new :
    (role : Role) (t : Tables)
    → member role.created_by_user_id t.users ≡ true
    → is_some (find_role role.role_id t.roles) ≡ false
    → insert_role role t ≡ (ok tt, with_roles (t.roles ++ role ∷ []) t)
unfolding insert_role
insert_role-new role t author free = ground (arith, author, free)

has_permission-added :
    (id : ℕ) (xs : List RoleGroup) (rows : List Row)
    → groups_of id xs ≡ []
    → (j : ℕ) (g m : Text)
    → has_permission j g m (xs ++ new_groups id rows)
      ≡ (if id == j then has_row g m rows else has_permission j g m xs)
has_permission-added id xs rows bare j g m =
    has_permission-append j g m xs (new_groups id rows)
    ∙ ground (arith, has_permission-new_groups id j g m rows, has_permission-none id g m xs bare)

-- Where the ids of the groups are distinct, creating a role with an id that is new and without role
-- groups, by a user that is there, replies with the role. It then may use a method on a group
-- exactly if the group is known, the method is valid and the permissions need it, and the reply
-- shows that. The permissions of the other roles are as they were.
pub create_role-Grants :
    (roots : List SyncGroup)
    → Distinct (ids_of (flatten roots))
    → (t : Tables) (id : ℕ) (role_data : RoleData) (p : Permissions)
    → is_some (find_role id t.roles) ≡ false
    → groups_of id t.role_groups ≡ []
    → member role_data.created_by t.users ≡ true
    → role_data.permissions ≡ some p
    → (shown : Permissions) × (t' : Tables) × (create_role (flatten roots) id role_data t
        ≡ (ok (new_role id role_data, shown), t'))
      × Grants (flatten roots) p id t'.role_groups
      × ((g m : Text) → has shown g m ≡ has_permission id g m t'.role_groups)
      × ((j : ℕ) (g m : Text)
          → j ≢ id
          → has_permission j g m t'.role_groups ≡ has_permission j g m t.role_groups)
unfolding create_role add_permissions serialize_role
create_role-Grants roots distinct t id role_data p free bare author given =
    let (rows, e, need) = resolve_role_group_rows_lem roots distinct p in
    let role = new_role id role_data in
    let gs = t.role_groups ++ new_groups id rows in
    let s = with_roles (t.roles ++ role ∷ []) t in
    let t' = with_role_groups gs s in
    let add = add_permissions (flatten roots) id role_data.permissions in
    let added : add s ≡ (ok tt, t') =
      ap (λ o. create_for_role id (resolve_role_group_rows (flatten roots) o) s) given
      ∙ ap (λ o. create_for_role id o s) e in
    let now = has_permission-added id t.role_groups rows bare in
    (
      build_permissions_map [] (groups_of id gs),
      t',
      >>-step (insert_role role >> add) (reply role) t t'
          (>>-step (insert_role role) add t s (insert_role-new role t author free) ∙ added),
      λ g m. (
        λ h. (need g m).0 (ground (arith, now id g m, h)),
        λ k. now id g m ∙ ground (arith, (need g m).1 k),
      ),
      λ g m. has-build_permissions_map id g m [] gs,
      λ j g m other. now j g m ∙ ground arith,
    )
