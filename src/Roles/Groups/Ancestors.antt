-- ===== src/Roles/Groups/Ancestors.antt =====
-- In the flattened list a group stands before the groups below it, so a walk from child to parent
-- goes back in the list.
use mathlib.Core.List.{append_assoc}
use remote_connect_backend.Base.{
  ℕ, suc, ◌≤◌, ◌<◌, ◌≡◌, refl, ◌∙◌, ap, ◌⊎◌, Bool, true, false, some, List, [], ◌∷◌, ◌++◌, arith,
  if◌then◌else◌, length, Bool-cases, inl, inr,
}
use remote_connect_backend.Base.Text.{Text, ◌≐◌, ≐_comm, ≐_self, eq_of-≐, contains}
use remote_connect_backend.Base.Dict.{Dict, lookup, insert, lookup-insert}
use remote_connect_backend.Roles.Groups.{
  SyncGroup, sync_group, Items, no_items, item, group_id, group_items, flatten_group, flatten_items,
  flatten, add_children, parent_by_id,
}

abbrev pub ids_of : List SyncGroup → List Text
ids_of [] = []
ids_of (g ∷ gs) = group_id g ∷ ids_of gs

abbrev pub Distinct : List Text → Type 0
Distinct [] = Unit
Distinct (x ∷ xs) = (contains x xs ≡ false) × Distinct xs

abbrev pub is_child : Text → Items → Bool
is_child c no_items = false
is_child c (item key child rest) = if c ≐ group_id child then true else is_child c rest

-- Below each group of the list, its children follow later in the list.
abbrev pub ChildrenLater : List SyncGroup → Type 0
ChildrenLater [] = Unit
ChildrenLater (g ∷ gs) =
    ((c : Text) → is_child c (group_items g) ≡ true → contains c (ids_of gs) ≡ true)
    × ChildrenLater gs

contains-ids_append :
    (c : Text) (xs ys : List SyncGroup)
    → contains c (ids_of (xs ++ ys))
      ≡ (if contains c (ids_of xs) then true else contains c (ids_of ys))
contains-ids_append c [] ys = refl
contains-ids_append c (x ∷ xs) ys = ground (arith, contains-ids_append c xs ys)

head_in : (g : SyncGroup) → contains (group_id g) (ids_of (flatten_group g)) ≡ true
unfolding flatten_group
head_in (sync_group id name description icon items) = rw (≐_self id) refl

children_in :
    (c : Text) (items : Items)
    → is_child c items ≡ true
    → contains c (ids_of (flatten_items items)) ≡ true
unfolding flatten_items
children_in c no_items h = cc
children_in c (item key child rest) h =
    rw (contains-ids_append c (flatten_group child) (flatten_items rest)) (
      ground (
        arith,
        children_in c rest,
        head_in child,
        eq_of-≐ c (group_id child),
        ap (λ x. contains x (ids_of (flatten_group child))) {x = c} {y = group_id child},
      ))

mutual
  unfolding flatten_group flatten_items

  flatten_group-later :
      (g : SyncGroup) (gs : List SyncGroup)
      → ChildrenLater gs
      → ChildrenLater (flatten_group g ++ gs)
  flatten_group-later (sync_group id name description icon items) gs later = (
    λ c h. rw (contains-ids_append c (flatten_items items) gs) (rw (children_in c items h) refl),
    flatten_items-later items gs later,
  )

  flatten_items-later :
      (items : Items) (gs : List SyncGroup)
      → ChildrenLater gs
      → ChildrenLater (flatten_items items ++ gs)
  flatten_items-later no_items gs later = later
  flatten_items-later (item key child rest) gs later =
      rw (append_assoc (flatten_group child) (flatten_items rest) gs)
        (flatten_group-later child (flatten_items rest ++ gs) (flatten_items-later rest gs later))

pub flatten-later : (groups : List SyncGroup) → ChildrenLater (flatten groups)
unfolding flatten
flatten-later [] = tt
flatten-later (g ∷ gs) = flatten_group-later g (flatten gs) (flatten-later gs)

-- Where the dict of parents has its entries from.
abbrev pub IsParent : Text → Text → List SyncGroup → Type 0
IsParent p c [] = ⊥
IsParent p c (g ∷ gs) = ((p ≡ group_id g) × (is_child c (group_items g) ≡ true)) ⊎ IsParent p c gs

lookup-add_children :
    (c parent : Text) (items : Items) (d : Dict Text)
    → lookup c (add_children parent items d)
      ≡ (if is_child c items then some parent else lookup c d)
unfolding add_children
lookup-add_children c parent no_items d = refl
lookup-add_children c parent (item key child rest) d =
    lookup-add_children c parent rest (insert (group_id child) parent d)
    ∙ ground (arith, lookup-insert (group_id child) c parent d, ≐_comm c (group_id child))

pub parent_by_id-IsParent :
    (gs : List SyncGroup) (d : Dict Text) (c p : Text)
    → lookup c (parent_by_id gs d) ≡ some p
    → (lookup c d ≡ some p) ⊎ IsParent p c gs
unfolding parent_by_id
parent_by_id-IsParent [] d c p h = inl h
parent_by_id-IsParent (g ∷ gs) d c p h =
    elim (parent_by_id-IsParent gs (add_children (group_id g) (group_items g) d) c p h) [
      | inr later ↦ inr (inr later)
      | inl here ↦ elim (Bool-cases (is_child c (group_items g))) [
        | inl child ↦
            inr (inl (ground (arith, lookup-add_children c (group_id g) (group_items g) d), child))
        | inr no_child ↦ inl (ground (arith, lookup-add_children c (group_id g) (group_items g) d))
      ]
    ]

-- The place of an id in a list of ids.
abbrev pub place : Text → List Text → ℕ
place x [] = 0
place x (y ∷ ys) = if x ≐ y then 0 else suc (place x ys)

contains-ne :
    (x y : Text) (ys : List Text) → contains x ys ≡ true → contains y ys ≡ false → (x ≐ y) ≡ false
contains-ne x y ys h k = ground (arith, eq_of-≐ x y, ap (λ z. contains z ys) {x = x} {y = y})

pub parent_before :
    (gs : List SyncGroup) (p c : Text)
    → Distinct (ids_of gs)
    → ChildrenLater gs
    → IsParent p c gs
    → (contains p (ids_of gs) ≡ true)
      × (contains c (ids_of gs) ≡ true)
      × (place p (ids_of gs) < place c (ids_of gs))
parent_before [] p c distinct later h = absurd h
parent_before (g ∷ gs) p c distinct later (inl (same, child)) =
    let below = later.0 c child in
    let other = contains-ne c (group_id g) (ids_of gs) below distinct.0 in
    ground (arith, same, ≐_self p, below, other)
parent_before (g ∷ gs) p c distinct later (inr h) =
    let (p_in, c_in, lt) = parent_before gs p c distinct.1 later.1 h in
    ground (
      arith,
      p_in,
      c_in,
      lt,
      contains-ne c (group_id g) (ids_of gs) c_in distinct.0,
      contains-ne p (group_id g) (ids_of gs) p_in distinct.0,
    )

pub length-ids_of : (gs : List SyncGroup) → length (ids_of gs) ≡ length gs
length-ids_of [] = refl
length-ids_of (g ∷ gs) = ap suc (length-ids_of gs)

pub place-le-length : (x : Text) (xs : List Text) → place x xs ≤ length xs
place-le-length x [] = omega arith
place-le-length x (y ∷ ys) = ground (arith, place-le-length x ys)
