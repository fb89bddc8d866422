-- ===== src/Roles/Permissions.antt =====
-- `_apply_permission_dependencies` of apps/app/modules/role/service/role_service.py: the closure of
-- a role's permissions, a dict from group ids to lists of methods. `get_ancestor_ids` is a
-- parameter here; `Roles.Groups` has the function of the source.
-- The source iterates over snapshots of the keys and of the items. An item's list is the one that
-- the dict holds, so it is read here when its turn comes.
pub mod Adding
pub mod Closure
pub mod Fixpoint
use remote_connect_backend.Base.{
  ℕ, zero, suc, Bool, true, false, not, ◌&&◌, Option, none, some, List, [], ◌∷◌, ◌++◌,
  if◌then◌else◌,
}
use remote_connect_backend.Base.Text.{Text, codes, ◌≐◌, contains}
use remote_connect_backend.Base.Dict.{Dict, lookup_or, insert, setdefault, keys}

abbrev pub get_method : Text
get_method = codes "GET"

-- `_VALID_PERMISSIONS`, the values of `RoleGroupPermissionEnum`.
abbrev pub valid_permissions : List Text
valid_permissions = codes "GET" ∷ codes "POST" ∷ codes "PUT" ∷ codes "PATCH" ∷ codes "DELETE" ∷ []

-- `{value for value in … if value != "GET"}`
abbrev pub without_get : List Text → List Text
without_get [] = []
without_get (x ∷ xs) = if x ≐ get_method then without_get xs else x ∷ without_get xs

unfoldable pub is_elevated : Text → Bool
is_elevated method = contains method (without_get valid_permissions)

-- `any(method in _ELEVATED_PERMISSIONS for method in methods)`
unfoldable pub any_elevated : List Text → Bool
any_elevated [] = false
any_elevated (m ∷ ms) = if is_elevated m then true else any_elevated ms

abbrev pub Permissions : Type 0
Permissions = Dict (List Text)

-- The loop's variables, `result` and `changed`.
abbrev pub State : Type 0
State = Permissions × Bool

unfoldable pub add_get : Text → State → State
add_get group_id (result, changed) =
    let methods = lookup_or [] group_id result in
    if not (contains get_method methods) && any_elevated methods
    then (insert group_id (methods ++ get_method ∷ []) result, true)
    else (result, changed)

unfoldable pub get_loop : List Text → State → State
get_loop [] s = s
get_loop (group_id ∷ group_ids) s = get_loop group_ids (add_get group_id s)

unfoldable pub add_method : Text → Text → State → State
add_method method ancestor_id (result, changed) =
    let result' = setdefault ancestor_id [] result in
    let ancestor_methods = lookup_or [] ancestor_id result' in
    if contains method ancestor_methods
    then (result', changed)
    else (insert ancestor_id (ancestor_methods ++ method ∷ []) result', true)

unfoldable pub ancestor_loop : Text → List Text → State → State
ancestor_loop method [] s = s
ancestor_loop method (ancestor_id ∷ ancestor_ids) s =
    ancestor_loop method ancestor_ids (add_method method ancestor_id s)

unfoldable pub method_loop : List Text → List Text → State → State
method_loop ancestor_ids [] s = s
method_loop ancestor_ids (method ∷ methods) s =
    method_loop ancestor_ids methods (ancestor_loop method ancestor_ids s)

module _ (get_ancestor_ids : Text → List Text) where
  unfoldable pub group_loop : List Text → State → State
  group_loop [] s = s
  group_loop (group_id ∷ group_ids) s =
      group_loop group_ids (method_loop (get_ancestor_ids group_id) (lookup_or [] group_id s.0) s)

  -- One round of the `while` loop.
  unfoldable pub round : Permissions → State
  round result = let s = get_loop (keys result) (result, false) in group_loop (keys s.0) s

  -- `while changed`, with fuel; `none` means that the fuel ran out.
  unfoldable pub rounds : ℕ → Permissions → Option Permissions
  rounds zero result = none
  rounds (suc fuel) result =
      let (result', changed) = round result in
      elim changed [ true ↦ rounds fuel result' | false ↦ some result' ]

  -- Two rounds are enough.
  unfoldable pub apply_permission_dependencies : Option Permissions → Option Permissions
  unfolding rounds
  apply_permission_dependencies none = rounds 2 []
  apply_permission_dependencies (some permissions) = rounds 2 permissions
