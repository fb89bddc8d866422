-- ===== src/Roles/Service/Consistent.antt =====
-- Consistent tables of roles, and the single changes that keep them so.
use remote_connect_backend.Base.{
  ℕ, ◌≤◌, ◌≡◌, refl, ◌∙◌, true, false, not, ◌&&◌, Option, is_some, List, [], ◌∷◌, ◌++◌, arith,
  if_cases,
}
use remote_connect_backend.Base.Action.{Result, ok, raised, other}
use remote_connect_backend.Roles.Rows.{Row}
use remote_connect_backend.Roles.Tables.{
  member, Role, UserRole, Tables, with_roles, with_role_groups, with_user_roles, find_role,
  with_default, clear_default, change_role, remove_role, groups_of, groups_without, new_groups,
  role_of_user, without_role, any_with_role, insert_assignment, is_empty, delete_role_row,
}
use remote_connect_backend.Roles.Tables.Queries.{
  with_id, defaults, find_role-change_role, with_id-change_role, defaults-change_role,
  find_role-clear_default, with_id-clear_default, defaults-clear_default, defaults-set,
  find_role-remove_role, with_id-remove_role, defaults-remove_role,
}
use remote_connect_backend.Roles.Tables.References.{
  assignments, groups_of-append, groups_of-groups_without, groups_of-new_groups,
  any_with_role-append, any_with_role-without_role, role_of_user-assignments, assignments-append,
  assignments-without_role,
}
use remote_connect_backend.Roles.Service.{
  is_user, RoleChange, changed_role, flush_role, make_default,
}

-- The ids of roles differ and at most one role is the default, each role group and each assignment
-- refers to a role, and a user has at most one assignment.
pub record Consistent (t : Tables) : Type 0 where
  pub one_role : (id : ℕ) → with_id id t.roles ≤ 1
  pub one_default : defaults t.roles ≤ 1
  pub groups_refer :
      (id : ℕ) → is_some (find_role id t.roles) ≡ false → groups_of id t.role_groups ≡ []
  pub assigned_refer :
      (id : ℕ) → is_some (find_role id t.roles) ≡ false → any_with_role id t.user_roles ≡ false
  pub one_assignment : (u : ℕ) → assignments u t.user_roles ≤ 1

-- Other roles, with the same ids.
pub roles-Consistent :
    (t : Tables) (rs : List Role)
    → Consistent t
    → ((id : ℕ) → with_id id rs ≤ 1)
    → defaults rs ≤ 1
    → ((id : ℕ) → is_some (find_role id rs) ≡ false → is_some (find_role id t.roles) ≡ false)
    → Consistent (with_roles rs t)
roles-Consistent t rs c ids one same = record {
  one_role = ids;
  one_default = one;
  groups_refer = λ id h. c.groups_refer id (same id h);
  assigned_refer = λ id h. c.assigned_refer id (same id h);
  one_assignment = c.one_assignment;
}

pub change_role-Consistent :
    (f : Role → Role)
    → ((r : Role) → (f r).role_id ≡ r.role_id)
    → (k : ℕ) (t : Tables) → Consistent t
    → defaults (change_role f k t.roles) ≤ 1
    → Consistent (with_roles (change_role f k t.roles) t)
change_role-Consistent f same_id k t c one =
    roles-Consistent t (change_role f k t.roles) c
      (λ id. omega (arith, c.one_role id, with_id-change_role f same_id k id t.roles)) one
      (λ id h. ground (arith, find_role-change_role f same_id k id t.roles))

pub new_groups-Consistent :
    (t : Tables) (gs : List Row) (id : ℕ)
    → Consistent t
    → is_some (find_role id t.roles) ≡ true
    → Consistent (with_role_groups (t.role_groups ++ new_groups id gs) t)
new_groups-Consistent t gs id c there = record {
  one_role = c.one_role;
  one_default = c.one_default;
  groups_refer = λ j h.
      groups_of-append j t.role_groups (new_groups id gs)
      ∙ ground (arith, c.groups_refer j h, groups_of-new_groups id j gs, there);
  assigned_refer = c.assigned_refer;
  one_assignment = c.one_assignment;
}

pub groups_without-Consistent :
    (t : Tables) (id : ℕ)
    → Consistent t
    → Consistent (with_role_groups (groups_without id t.role_groups) t)
groups_without-Consistent t id c = record {
  one_role = c.one_role;
  one_default = c.one_default;
  groups_refer =
      λ j h. groups_of-groups_without id j t.role_groups ∙ ground (arith, c.groups_refer j h);
  assigned_refer = c.assigned_refer;
  one_assignment = c.one_assignment;
}

-- Fewer assignments.
pub user_roles-Consistent :
    (t : Tables) (us : List UserRole)
    → Consistent t
    → ((r : ℕ) → any_with_role r t.user_roles ≡ false → any_with_role r us ≡ false)
    → ((u : ℕ) → assignments u us ≤ assignments u t.user_roles)
    → Consistent (with_user_roles us t)
user_roles-Consistent t us c refer fewer = record {
  one_role = c.one_role;
  one_default = c.one_default;
  groups_refer = c.groups_refer;
  assigned_refer = λ id h. refer id (c.assigned_refer id h);
  one_assignment = λ u. omega (arith, c.one_assignment u, fewer u);
}

pub insert_assignment-Consistent :
    (x : UserRole) (t : Tables) → Consistent t → Consistent (insert_assignment x t).1
unfolding insert_assignment
insert_assignment-Consistent x t c =
    if_cases (λ (s : Result (Unit {0}) × Tables). Consistent s.1)
      (is_some (find_role x.assigned_role t.roles)
        && ((member x.user_id t.users && member x.assigned_by t.users)
            && not (is_some (role_of_user x.user_id t.user_roles))))
      (ok tt, with_user_roles (t.user_roles ++ x ∷ []) t) (raised other, t)
      (λ h. record {
        one_role = c.one_role;
        one_default = c.one_default;
        groups_refer = c.groups_refer;
        assigned_refer =
            λ id g. any_with_role-append id t.user_roles x ∙ ground (arith, c.assigned_refer id g);
        one_assignment = λ u. ground (
          arith,
          assignments-append u t.user_roles x,
          c.one_assignment u,
          role_of_user-assignments x.user_id t.user_roles,
        );
      })
      (λ _. c)

pub delete_role_row-Consistent :
    (id : ℕ) (t : Tables) → Consistent t → Consistent (delete_role_row id t).1
unfolding delete_role_row
delete_role_row-Consistent id t c =
    if_cases (λ (s : Result (Unit {0}) × Tables). Consistent s.1)
      (is_empty (groups_of id t.role_groups) && not (any_with_role id t.user_roles))
      (ok tt, with_roles (remove_role id t.roles) t) (raised other, t)
      (λ h. record {
        one_role = λ j. omega (arith, c.one_role j, with_id-remove_role id j t.roles);
        one_default = omega (arith, c.one_default, defaults-remove_role id t.roles);
        groups_refer = λ j g. ground (arith, c.groups_refer j, find_role-remove_role id j t.roles);
        assigned_refer =
            λ j g. ground (arith, c.assigned_refer j, find_role-remove_role id j t.roles);
        one_assignment = c.one_assignment;
      })
      (λ _. c)

changed_role_id : (change : RoleChange) (r : Role) → (changed_role change r).role_id ≡ r.role_id
unfolding changed_role
changed_role_id change r = refl

changed_role_default :
    (change : RoleChange) (r : Role) → (changed_role change r).is_default ≡ r.is_default
unfolding changed_role
changed_role_default change r = refl

pub flush_role-Consistent :
    (change : RoleChange) (id : ℕ) (user : Option ℕ) (t : Tables)
    → Consistent t
    → Consistent (flush_role (changed_role change) id user t).1
unfolding flush_role
flush_role-Consistent change id user t c =
    let f = changed_role change in
    if_cases (λ (s : Result (Unit {0}) × Tables). Consistent s.1) (is_user user t)
      (ok tt, with_roles (change_role f id t.roles) t) (raised other, t)
      (λ h. change_role-Consistent f (changed_role_id change) id t c (
        omega
          (arith, c.one_default, defaults-change_role f (changed_role_default change) id t.roles)))
      (λ _. c)

pub make_default-Consistent : (id : ℕ) (t : Tables) → Consistent t → Consistent (make_default id t)
unfolding make_default
make_default-Consistent id t c =
    let cleared =
      roles-Consistent t (clear_default t.roles) c
        (λ j. omega (arith, c.one_role j, with_id-clear_default j t.roles))
        (omega (arith, defaults-clear_default t.roles))
        (λ j h. ground (arith, find_role-clear_default j t.roles)) in
    let one : defaults (change_role (with_default true) id (clear_default t.roles)) ≤ 1 =
      ground (arith, defaults-set id (clear_default t.roles) (defaults-clear_default t.roles)) in
    user_roles-Consistent
      (with_roles (change_role (with_default true) id (clear_default t.roles)) t)
      (without_role id t.user_roles)
      (change_role-Consistent (with_default true) (λ r. refl) id
        (with_roles (clear_default t.roles) t) cleared one)
      (λ r h. any_with_role-without_role id r t.user_roles ∙ ground arith)
      (λ u. assignments-without_role id u t.user_roles)
