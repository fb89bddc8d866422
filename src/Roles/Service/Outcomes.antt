-- ===== src/Roles/Service/Outcomes.antt =====
-- What `set_default_role`, `delete_role` and `set_user_role` reply and leave behind.
use remote_connect_backend.Base.{
  ℕ, ◌≡◌, ◌≢◌, refl, ◌∙◌, ap, true, false, Option, none, some, is_some, [], ◌∷◌, ◌++◌, arith, ◌==◌,
  ==_self, Bool-cases, inl, inr,
}
use remote_connect_backend.Base.Action.{ok}
use remote_connect_backend.Roles.Permissions.{Permissions}
use remote_connect_backend.Roles.Tables.{
  Role, Tables, with_roles, with_user_roles, find_role, default_role, with_default, clear_default,
  remove_role, groups_of, groups_without, role_of_user, without_user, without_role, any_with_role,
  member, insert_assignment, delete_role_row,
}
use remote_connect_backend.Roles.Tables.Queries.{
  mapped, defaults, find_role-clear_default, defaults-clear_default, defaults-set, default_role-set,
  find_role-remove_role,
}
use remote_connect_backend.Roles.Tables.References.{
  groups_of-groups_without, any_with_role-without_role, role_of_user-append,
  role_of_user-without_user,
}
use remote_connect_backend.Roles.Service.{
  make_default, set_found, set_default_role, without_references, delete_found, delete_role,
  new_assignment, role_of, same_role, set_user_role, serialize_role,
}

same_role-some : (o : Option ℕ) (b : ℕ) → same_role o (some b) ≡ true → o ≡ some b
same_role-some none b h = absurd (ground arith)
same_role-some (some a) b h = ap some (ground arith)

-- Making a role that is there the default replies with it. It is then the one default, and no user
-- is assigned to it. Role groups stay.
pub set_default_role-one :
    (t : Tables) (id : ℕ) (role : Role)
    → find_role id t.roles ≡ some role
    → (shown : Permissions) × (t' : Tables) × (set_default_role id true t
        ≡ (ok (with_default true role, shown), t'))
      × (default_role t'.roles ≡ some (with_default true role))
      × (defaults t'.roles ≡ 1)
      × (any_with_role id t'.user_roles ≡ false)
      × (t'.role_groups ≡ t.role_groups)
unfolding set_default_role make_default serialize_role
set_default_role-one t id role found = (
  (serialize_role (with_default true role) (groups_of role.role_id t.role_groups)).1,
  make_default id t,
  ap (λ o. set_found id true o t) found,
  default_role-set id t.roles ∙ ap (mapped (with_default true)) found,
  defaults-set id (clear_default t.roles) (defaults-clear_default t.roles)
      ∙ ground (arith, find_role-clear_default id t.roles, ap is_some found),
  any_with_role-without_role id id t.user_roles ∙ ground (arith, ==_self id),
  refl,
)

-- A role that is there and is not the default is deleted: no row that refers to it stops that, and
-- none is left. The other roles and their role groups stay.
pub delete_role-cascade :
    (t : Tables) (id : ℕ) (role : Role)
    → find_role id t.roles ≡ some role
    → role.is_default ≡ false
    → (t' : Tables) × (delete_role id t ≡ (ok tt, t'))
      × (find_role id t'.roles ≡ none)
      × (groups_of id t'.role_groups ≡ [])
      × (any_with_role id t'.user_roles ≡ false)
      × ((j : ℕ) → j ≢ id → find_role j t'.roles ≡ find_role j t.roles)
      × ((j : ℕ) → j ≢ id → groups_of j t'.role_groups ≡ groups_of j t.role_groups)
unfolding delete_role without_references delete_role_row
delete_role-cascade t id role found plain =
    let gs = groups_without id t.role_groups in
    let us = without_role id t.user_roles in
    let no_groups : groups_of id gs ≡ [] =
      groups_of-groups_without id id t.role_groups ∙ ground (arith, ==_self id) in
    let no_users : any_with_role id us ≡ false =
      any_with_role-without_role id id t.user_roles ∙ ground (arith, ==_self id) in
    let s = without_references id t in
    let t' = with_roles (remove_role id t.roles) s in
    (
      t',
      ap (λ o. delete_found id o t) found ∙ ground (arith, plain, no_groups, no_users),
      find_role-remove_role id id t.roles ∙ ground (arith, ==_self id),
      no_groups,
      no_users,
      λ j other. find_role-remove_role id j t.roles ∙ ground arith,
      λ j other. groups_of-groups_without id j t.role_groups ∙ ground arith,
    )

-- Where the user, the role and the acting user are there and the role's id is not 0, the user has
-- the role after `set_user_role`, and the other users have what they had.
pub set_user_role-some :
    (t : Tables) (id user role actor : ℕ)
    → member user t.users ≡ true
    → member actor t.users ≡ true
    → is_some (find_role role t.roles) ≡ true
    → (role == 0) ≡ false
    → (t' : Tables) × (set_user_role id user (some role) actor t ≡ (ok tt, t'))
      × (role_of (role_of_user user t'.user_roles) ≡ some role)
      × ((u : ℕ) → u ≢ user → role_of_user u t'.user_roles ≡ role_of_user u t.user_roles)
unfolding set_user_role insert_assignment
set_user_role-some t id user role actor user_in actor_in role_in given =
    elim (Bool-cases (same_role (role_of (role_of_user user t.user_roles)) (some role))) [
      | inl same ↦ (
        t,
        ground (arith, same),
        same_role-some (role_of (role_of_user user t.user_roles)) role same,
        λ u other. refl,
      )
      | inr differs ↦
          let x = new_assignment id user role actor in
          let us = without_user user t.user_roles in
          let gone = role_of_user-without_user user user t.user_roles in
          (
            with_user_roles (us ++ x ∷ []) t,
            ground (arith, differs, gone),
            ap role_of {y = some x}
                (role_of_user-append user us x ∙ ground (arith, gone, ==_self user)),
            λ u other.
                role_of_user-append u us x
                ∙ ground (arith, role_of_user-without_user user u t.user_roles),
          )
    ]
