-- ===== src/Roles/Groups.antt =====
-- infra/groups.py, the tree of permission groups, and
-- apps/app/modules/role/service/group_hierarchy.py, which walks it. The functions take the list of
-- all groups, `ALL_GROUPS` in the source, or the tuple of root groups from which it is flattened.
pub mod Ancestors
pub mod Climb
use remote_connect_backend.Base.{
  ℕ, zero, suc, Bool, true, false, Option, none, some, List, [], ◌∷◌, ◌++◌, length, if◌then◌else◌,
}
use remote_connect_backend.Base.Text.{Text, codes, ◌≐◌}
use remote_connect_backend.Base.Dict.{Dict, lookup, insert}

-- `SyncGroup` and its dict `items`, in the order of insertion.
mutual
  pub data SyncGroup : Type 0 where
    sync_group : Text → Text → Text → Text → Items → SyncGroup

  pub data Items : Type 0 where
    no_items : Items
    item : Text → SyncGroup → Items → Items

abbrev pub group_id : SyncGroup → Text
group_id (sync_group id name description icon items) = id

abbrev pub group_name : SyncGroup → Text
group_name (sync_group id name description icon items) = name

abbrev pub group_description : SyncGroup → Text
group_description (sync_group id name description icon items) = description

abbrev pub group_items : SyncGroup → Items
group_items (sync_group id name description icon items) = items

-- `SyncGroup.find`
unfoldable mutual
  pub find : Text → SyncGroup → Option SyncGroup
  find wanted (sync_group id name description icon items) =
      let below = find_items wanted items in
      if id ≐ wanted then some (sync_group id name description icon items) else below

  pub find_items : Text → Items → Option SyncGroup
  find_items wanted no_items = none
  find_items wanted (item key child rest) =
      let later = find_items wanted rest in
      elim (find wanted child) [ some found ↦ some found | none ↦ later ]

-- `_flatten`: a group stands before the groups below it.
unfoldable mutual
  pub flatten_group : SyncGroup → List SyncGroup
  flatten_group (sync_group id name description icon items) =
      sync_group id name description icon items ∷ flatten_items items

  pub flatten_items : Items → List SyncGroup
  flatten_items no_items = []
  flatten_items (item key child rest) = flatten_group child ++ flatten_items rest

unfoldable pub flatten : List SyncGroup → List SyncGroup
flatten [] = []
flatten (group ∷ groups) = flatten_group group ++ flatten groups

-- `{group.id: group for group in ALL_GROUPS}`, from the dict built so far.
unfoldable pub groups_by_id : List SyncGroup → Dict SyncGroup → Dict SyncGroup
groups_by_id [] d = d
groups_by_id (group ∷ groups) d = groups_by_id groups (insert (group_id group) group d)

-- `_PARENT_BY_ID`, from the dict built so far: a later entry of a key replaces an earlier one.
unfoldable pub add_children : Text → Items → Dict Text → Dict Text
add_children parent no_items d = d
add_children parent (item key child rest) d =
    add_children parent rest (insert (group_id child) parent d)

unfoldable pub parent_by_id : List SyncGroup → Dict Text → Dict Text
parent_by_id [] d = d
parent_by_id (group ∷ groups) d =
    parent_by_id groups (add_children (group_id group) (group_items group) d)

unfoldable pub get_group : List SyncGroup → Text → Option SyncGroup
get_group all_groups id = lookup id (groups_by_id all_groups [])

unfoldable pub get_parent_id : List SyncGroup → Text → Option Text
get_parent_id all_groups id = lookup id (parent_by_id all_groups [])

-- `while current is not None`, with fuel: the ids that the loop appends.
unfoldable pub climb : ℕ → Dict Text → Option Text → Option (List Text)
climb zero parents current = none
climb (suc fuel) parents none = some []
climb (suc fuel) parents (some current) = elim (climb fuel parents (lookup current parents)) [
  | some ancestors ↦ some (current ∷ ancestors)
  | none ↦ none
]

-- One step for each group is enough where the ids of the groups are distinct.
unfoldable pub get_ancestor_ids : List SyncGroup → Text → Option (List Text)
get_ancestor_ids all_groups id =
    let parents = parent_by_id all_groups [] in
    climb (suc (suc (length all_groups))) parents (lookup id parents)

-- The list that `get_ancestor_ids` returns.
abbrev pub listed : Option (List Text) → List Text
listed none = []
listed (some ids) = ids

abbrev pub ancestors_of : List SyncGroup → Text → List Text
ancestors_of all_groups id = listed (get_ancestor_ids all_groups id)

-- `collect` of `get_descendant_ids`.
unfoldable mutual
  pub collect : SyncGroup → List Text
  collect (sync_group id name description icon items) = collect_items items

  pub collect_items : Items → List Text
  collect_items no_items = []
  collect_items (item key child rest) = group_id child ∷ (collect child ++ collect_items rest)

unfoldable pub get_descendant_ids : List SyncGroup → Text → List Text
get_descendant_ids all_groups id = elim (get_group all_groups id) [
  | none ↦ []
  | some group ↦ collect group
]

-- The groups of the application.
abbrev pub g_role : SyncGroup
g_role =
    sync_group (codes "roles") (codes "Roles")
      (codes
        "Manages role definitions used to control what features and pages users can access across the platform.")
      (codes "user-cog") no_items

abbrev pub g_feature_request : SyncGroup
g_feature_request =
    sync_group (codes "feature-requests") (codes "Feature Requests")
      (codes "Collects and tracks feature requests and feedback submitted by users.")
      (codes "lightbulb") no_items

abbrev pub g_user : SyncGroup
g_user =
    sync_group (codes "users") (codes "Users")
      (codes
        "Manages platform user accounts, including roles, timezone preferences, and access status.")
      (codes "users") no_items

abbrev pub root_groups : List SyncGroup
root_groups = g_role ∷ g_feature_request ∷ g_user ∷ []
