-- ===== src/Authorization.antt =====
-- The authorization of a request by the role of its user: resolve_group_id of
-- apps/app/core/auth/route_binding.py and RoleAuthorizationMiddleware of
-- apps/app/core/auth/middleware/role_authorization_middleware.py.
-- A compiled pattern is the function that its `match` is.
pub mod Decision
mod Tests
use remote_connect_backend.Base.{
  ℕ, zero, suc, ◌+◌, Bool, true, false, not, ◌&&◌, ◌||◌, Option, none, some, List, [], ◌∷◌, ◌++◌,
  length, if◌then◌else◌, ◌==◌,
}
use remote_connect_backend.Base.Text.{Text, codes, ◌≐◌, contains}
use remote_connect_backend.Base.Dict.{Dict}
use remote_connect_backend.Roles.Groups.{SyncGroup, group_id}
use remote_connect_backend.Roles.Permissions.{Permissions, valid_permissions}
use remote_connect_backend.Roles.Rows.{is_valid}
use remote_connect_backend.Roles.Tables.{Role, Tables, default_role, has_permission}

abbrev pub slash : Text
slash = codes "/"

unfoldable pub starts_with : Text → Text → Bool
starts_with [] text = true
starts_with (c ∷ cs) [] = false
starts_with (c ∷ cs) (d ∷ ds) = (c == d) && starts_with cs ds

-- `text[len(prefix):]`
unfoldable pub without_prefix : Text → Text → Text
without_prefix [] text = text
without_prefix (c ∷ cs) [] = []
without_prefix (c ∷ cs) (d ∷ ds) = without_prefix cs ds

-- `path.rstrip("/") or "/"`
abbrev strip_end : ℕ → Text → Text
strip_end c [] = if c == 47 then [] else c ∷ []
strip_end c (d ∷ ds) = c ∷ d ∷ ds

unfoldable pub rstrip : Text → Text
rstrip [] = []
rstrip (c ∷ cs) = strip_end c (rstrip cs)

abbrev or_slash : Text → Text
or_slash [] = slash
or_slash (c ∷ cs) = c ∷ cs

unfoldable pub normalized_path : Text → Text
normalized_path path = or_slash (rstrip path)

-- `relative == segment or relative.startswith(segment + "/")`
unfoldable pub is_under : Text → Text → Bool
is_under segment relative = relative ≐ segment || starts_with (segment ++ slash) relative

unfoldable pub group_of_path : List SyncGroup → Text → Option Text
group_of_path [] relative = none
group_of_path (g ∷ gs) relative =
    if is_under (slash ++ group_id g) relative then some (group_id g) else group_of_path gs relative

-- The first binding that fits decides, also where it binds to no group.
unfoldable pub bound_group : List SyncGroup → Dict (Option Text) → Text → Option Text
bound_group all_groups [] relative = group_of_path all_groups relative
bound_group all_groups ((segment, bound) ∷ bindings) relative =
    if is_under segment relative then bound else bound_group all_groups bindings relative

-- `path[len(api_prefix):] if api_prefix and path.startswith(api_prefix) else path`
unfoldable pub relative_path : Text → Text → Text
relative_path api_prefix path =
    if starts_with api_prefix path then without_prefix api_prefix path else path

unfoldable pub resolve_group_id : List SyncGroup → Dict (Option Text) → Text → Text → Option Text
resolve_group_id all_groups bindings api_prefix path =
    bound_group all_groups bindings (relative_path api_prefix path)

abbrev pub MethodPaths : Type 0
MethodPaths = List (Text × (Text → Bool))

pub record Middleware : Type 0 where
  pub admin_only_method_paths : MethodPaths
  pub permission_exempt_method_paths : MethodPaths
  pub local_only_method_paths : MethodPaths
  pub permission_overrides : List (Text × ((Text → Bool) × Text))
  pub api_prefix : Text
  pub route_bindings : Dict (Option Text)
  pub all_groups : List SyncGroup

-- `request.state.user`, with the properties that the middleware reads.
pub record User : Type 0 where
  pub custom_permissions : Option Permissions
  pub effective_is_admin : Bool
  pub role_id : Option ℕ

pub record Request : Type 0 where
  pub method : Text
  pub path : Text
  pub user : Option User

pub data Answer : Type 0 where
  passed_on denied : Answer

-- `_matches`
unfoldable pub matches : MethodPaths → Text → Text → Bool
matches [] method path = false
matches ((m, pattern) ∷ rest) method path =
    if (m ≐ method) && pattern path then true else matches rest method path

unfoldable pub required_permission : List (Text × ((Text → Bool) × Text)) → Text → Text → Text
required_permission [] method path = method
required_permission ((m, (pattern, permission)) ∷ rest) method path =
    if (m ≐ method) && pattern path then permission else required_permission rest method path

-- `granted_group_ids`
unfoldable pub granted_group_ids : Text → Permissions → List Text
granted_group_ids required [] = []
granted_group_ids required ((g, methods) ∷ custom) =
    let rest = granted_group_ids required custom in
    if contains required methods then g ∷ rest else rest

abbrev pub id_of : Option Role → Option ℕ
id_of none = none
id_of (some r) = some r.role_id

-- `getattr(user, "role_id", None) or self._get_default_role_id()`: an id 0 counts as none.
abbrev pub or_default : Option ℕ → Option ℕ → Option ℕ
or_default none default = default
or_default (some zero) default = default
or_default (some (suc n)) default = some (suc n)

abbrev pub role_may : Option ℕ → Text → Text → Tables → Bool
role_may none g required t = false
role_may (some zero) g required t = false
role_may (some (suc n)) g required t = has_permission (suc n) g required t.role_groups

abbrev pub answer : Bool → Answer
answer true = passed_on
answer false = denied

-- The part of `dispatch` from `required_permission` on.
abbrev pub permission_check : Option Permissions → Option ℕ → Text → Text → Tables → Answer
permission_check (some custom) role g required t =
    answer (contains g (granted_group_ids required custom))
permission_check none role g required t =
    answer (role_may (or_default role (id_of (default_role t.roles))) g required t)

-- An empty id is false.
abbrev pub is_named : Text → Bool
is_named [] = false
is_named (c ∷ cs) = true

abbrev pub user_check : Middleware → Text → Text → User → Option Text → Tables → Answer
user_check mw method path user none t = passed_on
user_check mw method path user (some g) t =
    if is_named g
    then permission_check user.custom_permissions user.role_id g
        (required_permission mw.permission_overrides method (normalized_path path)) t
    else passed_on

abbrev pub is_plain : User → Bool
is_plain user = elim user.custom_permissions [ none ↦ not user.effective_is_admin | some _ ↦ true ]

abbrev pub is_exempt : Middleware → Text → Text → Bool
is_exempt mw method path =
    matches mw.admin_only_method_paths method path
    || (matches mw.permission_exempt_method_paths method path
        || matches mw.local_only_method_paths method path)

abbrev pub checked : Middleware → Text → Text → Option User → Tables → Answer
checked mw method path none t = passed_on
checked mw method path (some user) t =
    if is_plain user
    then user_check mw method path user
        (resolve_group_id mw.all_groups mw.route_bindings mw.api_prefix path) t
    else passed_on

unfoldable pub dispatch : Middleware → Request → Tables → Answer
dispatch mw r t =
    if is_valid r.method && not (is_exempt mw r.method (normalized_path r.path))
    then checked mw r.method r.path r.user t
    else passed_on
