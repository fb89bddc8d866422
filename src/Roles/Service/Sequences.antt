-- ===== src/Roles/Service/Sequences.antt =====
-- Sequences of operations keep the tables of roles consistent.
use remote_connect_backend.Base.{ℕ, refl, Bool, false, Option, List, [], ◌∷◌}
use remote_connect_backend.Services.{call, call-preserves}
use remote_connect_backend.Roles.Groups.{SyncGroup}
use remote_connect_backend.Roles.Tables.{Tables, find_role, find_assignment}
use remote_connect_backend.Roles.Service.{
  RoleData, RoleChange, create_role, update_role, set_default_role, delete_role, assign_role,
  remove_assignment, set_user_role,
}
use remote_connect_backend.Roles.Service.Consistent.{Consistent}
use remote_connect_backend.Roles.Service.Operations.{
  create_role-Consistent, update_found-Consistent, set_found-Consistent, delete_found-Consistent,
  assign_role-Consistent, remove_found-Consistent, set_user_role-Consistent,
}

-- A request to change roles or assignments.
pub data RoleOp : Type 0 where
  create : ℕ → RoleData → RoleOp
  update : ℕ → RoleChange → RoleOp
  set_default : ℕ → Bool → RoleOp
  delete : ℕ → RoleOp
  assign : ℕ → ℕ → ℕ → ℕ → RoleOp
  unassign : ℕ → RoleOp
  set_user : ℕ → ℕ → Option ℕ → ℕ → RoleOp

-- The tables after the transaction of a request.
unfoldable pub after : List SyncGroup → RoleOp → Tables → Tables
after all_groups (create id role_data) t = (call false (create_role all_groups id role_data) t).1
after all_groups (update id change) t = (call false (update_role all_groups id change) t).1
after all_groups (set_default id is_default) t = (call false (set_default_role id is_default) t).1
after all_groups (delete id) t = (call false (delete_role id) t).1
after all_groups (assign id user role actor) t = (call false (assign_role id user role actor) t).1
after all_groups (unassign id) t = (call false (remove_assignment id) t).1
after all_groups (set_user id user role actor) t =
    (call false (set_user_role id user role actor) t).1

unfoldable pub after_all : List SyncGroup → List RoleOp → Tables → Tables
after_all all_groups [] t = t
after_all all_groups (op ∷ ops) t = after_all all_groups ops (after all_groups op t)

after-Consistent :
    (all_groups : List SyncGroup) (op : RoleOp) (t : Tables)
    → Consistent t
    → Consistent (after all_groups op t)
unfolding after update_role set_default_role delete_role remove_assignment
after-Consistent all_groups (create id role_data) t c =
    call-preserves Consistent (create_role all_groups id role_data) t c
      (create_role-Consistent all_groups id role_data t c)
after-Consistent all_groups (update id change) t c =
    call-preserves Consistent (update_role all_groups id change) t c
      (update_found-Consistent all_groups id change t (find_role id t.roles) refl c)
after-Consistent all_groups (set_default id is_default) t c =
    call-preserves Consistent (set_default_role id is_default) t c
      (set_found-Consistent id is_default t (find_role id t.roles) c)
after-Consistent all_groups (delete id) t c =
    call-preserves Consistent (delete_role id) t c
      (delete_found-Consistent id t (find_role id t.roles) c)
after-Consistent all_groups (assign id user role actor) t c =
    call-preserves Consistent (assign_role id user role actor) t c
      (assign_role-Consistent id user role actor t c)
after-Consistent all_groups (unassign id) t c =
    call-preserves Consistent (remove_assignment id) t c
      (remove_found-Consistent id t (find_assignment id t.user_roles) c)
after-Consistent all_groups (set_user id user role actor) t c =
    call-preserves Consistent (set_user_role id user role actor) t c
      (set_user_role-Consistent id user role actor t c)

-- From consistent tables, any sequence of requests leads to consistent tables: the ids of roles
-- differ, at most one role is the default, each role group and each assignment refers to a role,
-- and a user has at most one assignment.
pub after_all-Consistent :
    (all_groups : List SyncGroup) (ops : List RoleOp) (t : Tables)
    → Consistent t
    → Consistent (after_all all_groups ops t)
unfolding after_all
after_all-Consistent all_groups [] t c = c
after_all-Consistent all_groups (op ∷ ops) t c =
    after_all-Consistent all_groups ops (after all_groups op t) (after-Consistent all_groups op t c)
