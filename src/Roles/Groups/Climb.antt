-- ===== src/Roles/Groups/Climb.antt =====
-- `get_ancestor_ids` ends, and lists all that is above a group.
use remote_connect_backend.Base.{
  ℕ, zero, suc, ◌+◌, ◌<◌, ◌≡◌, refl, ◌∙◌, sym, ap, ◌↔◌, true, Option, none, some, subst, List, [],
  ◌∷◌, arith, length, Bool-cases, Option-cases, inl, inr,
}
use remote_connect_backend.Base.Text.{Text, ◌≐◌, ≐_self, eq_of-≐, contains}
use remote_connect_backend.Base.Dict.{Dict, lookup}
use remote_connect_backend.Roles.Groups.{
  SyncGroup, flatten, parent_by_id, get_parent_id, climb, get_ancestor_ids, listed, ancestors_of,
}
use remote_connect_backend.Roles.Groups.Ancestors.{
  ids_of, Distinct, ChildrenLater, flatten-later, parent_by_id-IsParent, place, parent_before,
  length-ids_of, place-le-length,
}

-- The group `a` is above the group `g`: its parent, or above its parent.
pub data Above (all_groups : List SyncGroup) (a : Text) : Text → Type 0 where
  parent : (g : Text) → get_parent_id all_groups g ≡ some a → Above all_groups a g
  higher :
      (g p : Text)
      → get_parent_id all_groups g ≡ some p
      → Above all_groups a p
      → Above all_groups a g

pub Above-trans :
    (all_groups : List SyncGroup) (a b g : Text)
    → Above all_groups a g
    → Above all_groups b a
    → Above all_groups b g
Above-trans all_groups a b g (parent _ e) up = higher g a e up
Above-trans all_groups a b g (higher _ p e below) up =
    higher g p e (Above-trans all_groups a b p below up)

module _ (all_groups : List SyncGroup) where
  abbrev parents : Dict Text
  parents = parent_by_id all_groups []

  parent_lem : (g : Text) → get_parent_id all_groups g ≡ lookup g parents
  unfolding get_parent_id
  parent_lem g = refl

  -- What a successful step of the climb returns.
  climb_step :
      (fuel : ℕ) (p : Text) (ids : List Text)
      → climb (suc fuel) parents (some p) ≡ some ids
      → (rest : List Text) × (climb fuel parents (lookup p parents) ≡ some rest) × (ids ≡ p ∷ rest)
  unfolding climb
  climb_step fuel p ids e = elim (Option-cases (climb fuel parents (lookup p parents))) [
    | inl stuck ↦ absurd (ground (arith, stuck))
    | inr (rest, more) ↦ (rest, more, ground (arith, more))
  ]

  climb_top : (fuel : ℕ) (ids : List Text) → climb (suc fuel) parents none ≡ some ids → ids ≡ []
  unfolding climb
  climb_top fuel ids e = ground arith

  climb-Above :
      (fuel : ℕ) (g : Text) (ids : List Text) (a : Text)
      → climb fuel parents (lookup g parents) ≡ some ids
      → contains a ids ≡ true
      → Above all_groups a g
  unfolding climb
  climb-Above zero g ids a e h = absurd (ground arith)
  climb-Above (suc fuel) g ids a e h = elim (Option-cases (lookup g parents)) [
    | inl top ↦
        let is_empty = climb_top fuel ids (ap (climb (suc fuel) parents) (sym top) ∙ e) in
        absurd (ground (arith, is_empty))
    | inr (p, up) ↦
        let (rest, more, same) =
          climb_step fuel p ids (ap (climb (suc fuel) parents) (sym up) ∙ e) in
        elim (Bool-cases (a ≐ p)) [
          | inl here ↦ parent g (parent_lem g ∙ up ∙ ap some (sym (eq_of-≐ a p here)))
          | inr above ↦
              higher g p (parent_lem g ∙ up) (climb-Above fuel p rest a more (ground (arith, same)))
        ]
  ]

  Above-climb :
      (fuel : ℕ) (g : Text) (ids : List Text) (a : Text)
      → climb fuel parents (lookup g parents) ≡ some ids
      → Above all_groups a g
      → contains a ids ≡ true
  unfolding climb
  Above-climb zero g ids a e above = absurd (ground arith)
  Above-climb (suc fuel) g ids a e (parent _ up) =
      let up' = sym (parent_lem g) ∙ up in
      let (rest, more, same) =
        climb_step fuel a ids (ap (climb (suc fuel) parents) (sym up') ∙ e) in
      rw same (rw (≐_self a) refl)
  Above-climb (suc fuel) g ids a e (higher _ p up above) =
      let up' = sym (parent_lem g) ∙ up in
      let (rest, more, same) =
        climb_step fuel p ids (ap (climb (suc fuel) parents) (sym up') ∙ e) in
      ground (arith, same, Above-climb fuel p rest a more above)

  module _ (distinct : Distinct (ids_of all_groups)) (later : ChildrenLater all_groups) where
    climb_total :
        (fuel : ℕ) (current : Option Text)
        → 0 < fuel
        → ((c : Text) → current ≡ some c → place c (ids_of all_groups) + 1 < fuel)
        → (ids : List Text) × (climb fuel parents current ≡ some ids)
    unfolding climb
    climb_total zero current pos bound = absurd (omega arith)
    climb_total (suc fuel) none pos bound = ([], refl)
    climb_total (suc fuel) (some c) pos bound =
        let here = bound c refl in
        let (ids, e) = climb_total fuel (lookup c parents) (omega (arith, here)) (λ p up.
          elim (parent_by_id-IsParent all_groups [] c p up) [
            | inl nothing ↦ absurd (ground arith)
            | inr edge ↦
                let (_, _, before) = parent_before all_groups p c distinct later edge in
                omega (arith, here, before)
          ]) in
        (c ∷ ids, ground (arith, e))

-- Where the ids of the flattened groups are distinct, the walk over the parents of a group ends,
-- and lists exactly the groups above it.
pub get_ancestor_ids_lem :
    (roots : List SyncGroup)
    → Distinct (ids_of (flatten roots))
    → (g : Text)
    → (ids : List Text) × (get_ancestor_ids (flatten roots) g ≡ some ids)
      × ((a : Text) → (contains a ids ≡ true) ↔ Above (flatten roots) a g)
unfolding get_ancestor_ids
get_ancestor_ids_lem roots distinct g =
    let all_groups = flatten roots in
    let fuel = suc (suc (length all_groups)) in
    let (ids, e) =
      climb_total all_groups distinct (flatten-later roots) fuel (lookup g (parents all_groups))
        (omega arith)
        (λ p up. omega (arith, place-le-length p (ids_of all_groups), length-ids_of all_groups)) in
    (ids, e, λ a. (climb-Above all_groups fuel g ids a e, Above-climb all_groups fuel g ids a e))

pub ancestors_of-Above :
    (roots : List SyncGroup)
    → Distinct (ids_of (flatten roots))
    → (g a : Text)
    → (contains a (ancestors_of (flatten roots) g) ≡ true) ↔ Above (flatten roots) a g
ancestors_of-Above roots distinct g a =
    let (ids, e, same) = get_ancestor_ids_lem roots distinct g in
    (
      λ h. (same a).0 (subst (λ x. contains a (listed x) ≡ true) e h),
      λ h. subst (λ x. contains a (listed x) ≡ true) (sym e) ((same a).1 h),
    )

pub ancestors_of_trans :
    (roots : List SyncGroup)
    → Distinct (ids_of (flatten roots))
    → (g a b : Text) → contains a (ancestors_of (flatten roots) g) ≡ true
    → contains b (ancestors_of (flatten roots) a) ≡ true
    → contains b (ancestors_of (flatten roots) g) ≡ true
ancestors_of_trans roots distinct g a b h k = (ancestors_of-Above roots distinct g b).1 (
    Above-trans (flatten roots) a b g ((ancestors_of-Above roots distinct g a).0 h)
      ((ancestors_of-Above roots distinct a b).0 k))
