-- ===== src/Roles/Rows.antt =====
-- `_resolve_role_group_rows` of apps/app/modules/role/service/role_service.py: the rows of the table
-- of role groups for a role's permissions.
-- The source iterates over the items of a dict, which are its keys with their values.
use remote_connect_backend.Base.{
  ◌≡◌, refl, ◌∙◌, ap, ◌↔◌, inl, inr, Bool, true, false, ◌&&◌, Option, none, some, is_some, List, [],
  ◌∷◌, ◌++◌, arith, if◌then◌else◌, Option-cases,
}
use remote_connect_backend.Base.Text.{Text, ◌≐◌, ≐_comm, eq_of-≐, contains}
use remote_connect_backend.Base.Dict.{
  Dict, lookup, lookup_or, keys, insert, lookup-insert, contains-keys,
}
use remote_connect_backend.Roles.Groups.{
  SyncGroup, flatten, group_id, group_name, group_description, groups_by_id, get_group,
  ancestors_of,
}
use remote_connect_backend.Roles.Groups.Ancestors.{ids_of, Distinct}
use remote_connect_backend.Roles.Groups.Climb.{ancestors_of_trans}
use remote_connect_backend.Roles.Permissions.{
  valid_permissions, Permissions, apply_permission_dependencies,
}
use remote_connect_backend.Roles.Permissions.Adding.{has}
use remote_connect_backend.Roles.Permissions.Fixpoint.{Needed, apply_permission_dependencies-Needed}

-- The dict that is appended to `rows`.
pub record Row : Type 0 where
  pub row_group_id : Text
  pub row_group_name : Text
  pub row_group_description : Text
  pub row_permission : Text

abbrev pub new_row : SyncGroup → Text → Row
new_row group method = record {
  row_group_id = group_id group;
  row_group_name = group_name group;
  row_group_description = group_description group;
  row_permission = method;
}

-- `method in _VALID_PERMISSIONS`
unfoldable pub is_valid : Text → Bool
is_valid method = contains method valid_permissions

unfoldable pub method_rows : SyncGroup → List Text → List Row
method_rows group [] = []
method_rows group (method ∷ methods) =
    let rest = method_rows group methods in
    if is_valid method then new_row group method ∷ rest else rest

-- The rows of one group id: none if the id is unknown.
unfoldable pub group_rows : Option SyncGroup → List Text → List Row
group_rows none methods = []
group_rows (some group) methods = method_rows group methods

unfoldable pub item_rows : List SyncGroup → Permissions → List Text → List Row
item_rows all_groups permissions [] = []
item_rows all_groups permissions (id ∷ ids) =
    group_rows (get_group all_groups id) (lookup_or [] id permissions)
    ++ item_rows all_groups permissions ids

abbrev rows_after : List SyncGroup → Option Permissions → Option (List Row)
rows_after all_groups none = none
rows_after all_groups (some permissions) =
    some (item_rows all_groups permissions (keys permissions))

unfoldable pub resolve_role_group_rows : List SyncGroup → Option Permissions → Option (List Row)
resolve_role_group_rows all_groups permissions =
    rows_after all_groups (apply_permission_dependencies (ancestors_of all_groups) permissions)

-- A row for the group and the method is in the list.
abbrev pub has_row : Text → Text → List Row → Bool
has_row g m [] = false
has_row g m (row ∷ rows) =
    if (row.row_group_id ≐ g) && (row.row_permission ≐ m) then true else has_row g m rows

has_row-append :
    (g m : Text) (xs ys : List Row)
    → has_row g m (xs ++ ys) ≡ (if has_row g m xs then true else has_row g m ys)
has_row-append g m [] ys = refl
has_row-append g m (x ∷ xs) ys = ground (arith, has_row-append g m xs ys)

has_row-method_rows :
    (g m : Text) (group : SyncGroup) (methods : List Text)
    → has_row g m (method_rows group methods)
      ≡ ((group_id group ≐ g) && (contains m methods && is_valid m))
unfolding method_rows
has_row-method_rows g m group [] = ground arith
has_row-method_rows g m group (x ∷ xs) =
    ground (
      arith,
      has_row-method_rows g m group xs,
      ≐_comm x m,
      eq_of-≐ m x,
      ap is_valid {x = m} {y = x},
    )

groups_by_id-group_id :
    (gs : List SyncGroup) (d : Dict SyncGroup) (id : Text) (x : SyncGroup)
    → ((y : SyncGroup) → lookup id d ≡ some y → group_id y ≡ id)
    → lookup id (groups_by_id gs d) ≡ some x
    → group_id x ≡ id
unfolding groups_by_id
groups_by_id-group_id [] d id x old h = old x h
groups_by_id-group_id (g ∷ gs) d id x old h =
    groups_by_id-group_id gs (insert (group_id g) g d) id x
      (λ y e. ground (arith, lookup-insert (group_id g) id g d, eq_of-≐ (group_id g) id, old y)) h

-- A row of the group for the method comes from the item of the group.
has_row-group_rows :
    (all_groups : List SyncGroup) (permissions : Permissions) (g m id : Text)
    → has_row g m (group_rows (get_group all_groups id) (lookup_or [] id permissions))
      ≡ ((id ≐ g) && (is_some (get_group all_groups g) && (has permissions g m && is_valid m)))
unfolding get_group group_rows
has_row-group_rows all_groups permissions g m id =
    elim (Option-cases (lookup id (groups_by_id all_groups []))) [
      | inl unknown ↦ rw unknown (
          ground (
            arith,
            unknown,
            eq_of-≐ id g,
            ap (λ z. lookup z (groups_by_id all_groups [])) {x = id} {y = g},
          ))
      | inr (group, known) ↦
          let same : group_id group ≡ id =
            groups_by_id-group_id all_groups [] id group (λ y e. absurd (ground (arith, e)))
              known in
          rw known (
            ground (
              arith,
              known,
              same,
              has_row-method_rows g m group (lookup_or [] id permissions),
              eq_of-≐ id g,
              ap (λ z. lookup z (groups_by_id all_groups [])) {x = id} {y = g},
              ap (λ z. lookup_or [] z permissions) {x = id} {y = g},
            ))
    ]

has_row-item_rows :
    (all_groups : List SyncGroup) (permissions : Permissions) (g m : Text) (ids : List Text)
    → has_row g m (item_rows all_groups permissions ids) ≡ (
        contains g ids && (is_some (get_group all_groups g) && (has permissions g m && is_valid m)))
unfolding item_rows
has_row-item_rows all_groups permissions g m [] = refl
has_row-item_rows all_groups permissions g m (id ∷ ids) = ground (
  arith,
  has_row-append g m (group_rows (get_group all_groups id) (lookup_or [] id permissions))
      (item_rows all_groups permissions ids),
  has_row-group_rows all_groups permissions g m id,
  has_row-item_rows all_groups permissions g m ids,
  ≐_comm g id,
)

has-keys : (r : Permissions) (g m : Text) → has r g m ≡ true → contains g (keys r) ≡ true
has-keys r g m h = elim (Option-cases (lookup g r)) [
  | inl nothing ↦ absurd (ground (arith, nothing))
  | inr (methods, here) ↦ contains-keys g r ∙ ground (arith, here)
]

-- Where the ids of the groups are distinct, the rows of some permissions end, and there is a row
-- for a group and a method exactly if the group is known, the method is one of the five, and the
-- permissions need it.
pub resolve_role_group_rows_lem :
    (roots : List SyncGroup)
    → Distinct (ids_of (flatten roots))
    → (p : Permissions)
    → (rows : List Row) × (resolve_role_group_rows (flatten roots) (some p) ≡ some rows)
      × ((g m : Text)
          → (has_row g m rows ≡ true) ↔ (
              (is_some (get_group (flatten roots) g) ≡ true)
              × (is_valid m ≡ true)
              × Needed (ancestors_of (flatten roots)) p g m))
unfolding resolve_role_group_rows
resolve_role_group_rows_lem roots distinct p =
    let all_groups = flatten roots in
    let (r, e, need) =
      apply_permission_dependencies-Needed (ancestors_of all_groups) p
        (ancestors_of_trans roots distinct) in
    (
      item_rows all_groups r (keys r),
      ap (rows_after all_groups) e,
      λ g m.
          let same = has_row-item_rows all_groups r g m (keys r) in
          (
            λ h.
                let there : has r g m ≡ true = ground (arith, same, h) in
                (ground (arith, same, h), ground (arith, same, h), (need g m).0 there),
            λ known.
                let (in_tree, valid, needed) = known in
                let there : has r g m ≡ true = (need g m).1 needed in
                same ∙ ground (arith, there, in_tree, valid, has-keys r g m there),
          ),
    )
