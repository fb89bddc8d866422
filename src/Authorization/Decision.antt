-- ===== src/Authorization/Decision.antt =====
-- What a role's permissions mean for the requests of its users.
use remote_connect_backend.Base.{
  ℕ, suc, ◌≡◌, refl, ◌∙◌, sym, ap, ◌↔◌, Bool, true, false, Option, none, some, is_some, List, arith,
  if◌then◌else◌,
}
use remote_connect_backend.Base.Text.{Text}
use remote_connect_backend.Base.Action.{Result}
use remote_connect_backend.Roles.Groups.{SyncGroup, flatten, get_group, ancestors_of}
use remote_connect_backend.Roles.Groups.Ancestors.{ids_of, Distinct}
use remote_connect_backend.Roles.Permissions.{Permissions}
use remote_connect_backend.Roles.Permissions.Fixpoint.{Needed}
use remote_connect_backend.Roles.Rows.{is_valid}
use remote_connect_backend.Roles.Tables.{Role, Tables, find_role, default_role, has_permission}
use remote_connect_backend.Roles.Service.{RoleChange, is_user, update_role, set_default_role}
use remote_connect_backend.Roles.Service.Granting.{find_role-role_id, update_role-Grants}
use remote_connect_backend.Roles.Service.Outcomes.{set_default_role-one}
use remote_connect_backend.Authorization.{
  Middleware, User, Request, passed_on, normalized_path, required_permission, resolve_group_id,
  is_exempt, is_named, permission_check, user_check, checked, dispatch, role_may, or_default, id_of,
  answer,
}

-- A request that the middleware checks, of a user with that role and without permissions of an
-- administrator, for the method `required` on the group `g`.
pub record Checks (mw : Middleware) (r : Request) (user : User) (role : Option ℕ)
    (g required : Text) : Type 0 where
  pub is_checked : is_valid r.method ≡ true
  pub not_exempt : is_exempt mw r.method (normalized_path r.path) ≡ false
  pub by_user : r.user ≡ some user
  pub no_custom : user.custom_permissions ≡ none
  pub no_admin : user.effective_is_admin ≡ false
  pub with_role : user.role_id ≡ role
  pub on_group : resolve_group_id mw.all_groups mw.route_bindings mw.api_prefix r.path ≡ some g
  pub group_named : is_named g ≡ true
  pub for_method :
      required_permission mw.permission_overrides r.method (normalized_path r.path) ≡ required

passed_on-answer : (b : Bool) → (answer b ≡ passed_on) ↔ (b ≡ true)
passed_on-answer true = (λ _. refl, λ _. refl)
passed_on-answer false = (λ h. absurd (ground arith), λ h. absurd (ground arith))

dispatch-role_may :
    (mw : Middleware) (r : Request) (user : User) (role : Option ℕ) (g required : Text) (t : Tables)
    → Checks mw r user role g required
    → dispatch mw r t
      ≡ answer (role_may (or_default role (id_of (default_role t.roles))) g required t)
unfolding dispatch
dispatch-role_may mw r user role g required t c =
    ap (λ b. if b then checked mw r.method r.path r.user t else passed_on) {y = true}
      (ground (arith, c.is_checked, c.not_exempt))
    ∙ ap (λ u. checked mw r.method r.path u t) c.by_user
    ∙ ap
        (λ b.
          if b
          then user_check mw r.method r.path user
              (resolve_group_id mw.all_groups mw.route_bindings mw.api_prefix r.path) t
          else passed_on)
        {y = true} (ground (arith, c.no_custom, c.no_admin))
    ∙ ap (λ o. user_check mw r.method r.path user o t) c.on_group
    ∙ ap
        (λ b.
          if b
          then permission_check user.custom_permissions user.role_id g
              (required_permission mw.permission_overrides r.method (normalized_path r.path)) t
          else passed_on)
        c.group_named
    ∙ ap
        (λ o.
          permission_check o user.role_id g
            (required_permission mw.permission_overrides r.method (normalized_path r.path)) t)
        c.no_custom
    ∙ ap
        (λ o.
          permission_check none o g
            (required_permission mw.permission_overrides r.method (normalized_path r.path)) t)
        c.with_role
    ∙ ap (λ m. permission_check none role g m t) c.for_method

-- Where the ids of the groups are distinct and a user that is there gives the role of another user
-- new permissions, a checked request of the other user for a method on a group is then passed on
-- exactly if the group is known, the method is valid and the permissions need it.
pub dispatch-update_role :
    (roots : List SyncGroup)
    → Distinct (ids_of (flatten roots))
    → (t : Tables) (id : ℕ) (role : Role) (change : RoleChange) (p : Permissions)
    → find_role (suc id) t.roles ≡ some role
    → is_user change.changed_by t ≡ true
    → change.new_permissions ≡ some p
    → (mw : Middleware) (r : Request) (user : User) (g required : Text)
    → Checks mw r user (some (suc id)) g required
    → (dispatch mw r (update_role (flatten roots) (suc id) change t).1 ≡ passed_on) ↔ (
        (is_some (get_group (flatten roots) g) ≡ true)
        × (is_valid required ≡ true)
        × Needed (ancestors_of (flatten roots)) p g required)
dispatch-update_role roots distinct t id role change p found by_user given mw r user g required c =
    let (shown, t', e, grants, shows, others) =
      update_role-Grants roots distinct t (suc id) role change p found by_user given in
    let decided =
      ap (λ (x : Result (Role × Permissions) × Tables). dispatch mw r x.1) e
      ∙ dispatch-role_may mw r user (some (suc id)) g required t' c in
    let passes = passed_on-answer (has_permission (suc id) g required t'.role_groups) in
    (
      λ h. (grants g required).0 (passes.0 (sym decided ∙ h)),
      λ need. decided ∙ passes.1 ((grants g required).1 need),
    )

-- After a role that is there has been made the default, a checked request of a user without a role is
-- passed on exactly if that role may use the method on the group.
pub dispatch-set_default_role :
    (t : Tables) (id : ℕ) (role : Role)
    → find_role (suc id) t.roles ≡ some role
    → (mw : Middleware) (r : Request) (user : User) (g required : Text)
    → Checks mw r user none g required
    → (dispatch mw r (set_default_role (suc id) true t).1 ≡ passed_on)
      ↔ (has_permission (suc id) g required t.role_groups ≡ true)
dispatch-set_default_role t id role found mw r user g required c =
    let (shown, t', e, is_default, one, unused, same_groups) =
      set_default_role-one t (suc id) role found in
    let named = find_role-role_id (suc id) t.roles role found in
    let decided =
      ap (λ (x : Result (Role × Permissions) × Tables). dispatch mw r x.1) e
      ∙ dispatch-role_may mw r user none g required t' c
      ∙ ap (λ o. answer (role_may (or_default none (id_of o)) g required t')) is_default
      ∙ ap (λ i. answer (role_may (some i) g required t')) named
      ∙ ap (λ gs. answer (has_permission (suc id) g required gs)) same_groups in
    let passes = passed_on-answer (has_permission (suc id) g required t.role_groups) in
    (λ h. passes.0 (sym decided ∙ h), λ may. decided ∙ passes.1 may)
