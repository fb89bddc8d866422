-- ===== src/Roles/Tables/Queries.antt =====
-- What the queries on the table of roles find after the changes.
use remote_connect_backend.Base.{
  ℕ, ◌+◌, ◌≤◌, ◌≡◌, refl, true, false, Option, none, some, is_some, List, [], ◌∷◌, ◌++◌, arith,
  if◌then◌else◌, ◌==◌,
}
use remote_connect_backend.Roles.Tables.{
  Role, find_role, default_role, with_default, clear_default, change_role, remove_role,
}

abbrev pub mapped : (Role → Role) → Option Role → Option Role
mapped f none = none
mapped f (some r) = some (f r)

-- How many roles have the id, and how many are the default.
unfoldable pub with_id : ℕ → List Role → ℕ
with_id id [] = 0
with_id id (r ∷ rs) = (if r.role_id == id then 1 else 0) + with_id id rs

unfoldable pub defaults : List Role → ℕ
defaults [] = 0
defaults (r ∷ rs) = (if r.is_default then 1 else 0) + defaults rs

pub find_role-with_id :
    (id : ℕ) (rs : List Role)
    → is_some (find_role id rs) ≡ (if with_id id rs == 0 then false else true)
unfolding find_role with_id
find_role-with_id id [] = refl
find_role-with_id id (r ∷ rs) = ground (arith, find_role-with_id id rs)

pub find_role-append :
    (id : ℕ) (rs : List Role) (r : Role)
    → find_role id (rs ++ r ∷ []) ≡ (
        if is_some (find_role id rs)
        then find_role id rs
        else if r.role_id == id
        then some r
        else none)
unfolding find_role
find_role-append id [] r = ground arith
find_role-append id (x ∷ rs) r = ground (arith, find_role-append id rs r)

pub with_id-append :
    (id : ℕ) (rs : List Role) (r : Role)
    → with_id id (rs ++ r ∷ []) ≡ with_id id rs + (if r.role_id == id then 1 else 0)
unfolding with_id
with_id-append id [] r = ground arith
with_id-append id (x ∷ rs) r = ground (arith, with_id-append id rs r)

pub defaults-append :
    (rs : List Role) (r : Role)
    → defaults (rs ++ r ∷ []) ≡ defaults rs + (if r.is_default then 1 else 0)
unfolding defaults
defaults-append [] r = ground arith
defaults-append (x ∷ rs) r = ground (arith, defaults-append rs r)

module _ (f : Role → Role) (same_id : (r : Role) → (f r).role_id ≡ r.role_id) where
  pub find_role-change_role :
      (k id : ℕ) (rs : List Role)
      → find_role id (change_role f k rs)
        ≡ (if k == id then mapped f (find_role id rs) else find_role id rs)
  unfolding find_role change_role
  find_role-change_role k id [] = ground arith
  find_role-change_role k id (r ∷ rs) = ground (arith, find_role-change_role k id rs, same_id r)

  pub with_id-change_role :
      (k id : ℕ) (rs : List Role) → with_id id (change_role f k rs) ≡ with_id id rs
  unfolding with_id change_role
  with_id-change_role k id [] = refl
  with_id-change_role k id (r ∷ rs) = ground (arith, with_id-change_role k id rs, same_id r)

pub defaults-change_role :
    (f : Role → Role) (keeps : (r : Role) → (f r).is_default ≡ r.is_default) (k : ℕ)
    (rs : List Role)
    → defaults (change_role f k rs) ≡ defaults rs
unfolding defaults change_role
defaults-change_role f keeps k [] = refl
defaults-change_role f keeps k (r ∷ rs) = ground (arith, defaults-change_role f keeps k rs, keeps r)

pub defaults-unset :
    (k : ℕ) (rs : List Role) → defaults (change_role (with_default false) k rs) ≤ defaults rs
unfolding defaults change_role
defaults-unset k [] = omega arith
defaults-unset k (r ∷ rs) = ground (arith, defaults-unset k rs)

pub find_role-clear_default :
    (id : ℕ) (rs : List Role)
    → is_some (find_role id (clear_default rs)) ≡ is_some (find_role id rs)
unfolding find_role clear_default
find_role-clear_default id [] = refl
find_role-clear_default id (r ∷ rs) = ground (arith, find_role-clear_default id rs)

pub with_id-clear_default :
    (id : ℕ) (rs : List Role) → with_id id (clear_default rs) ≡ with_id id rs
unfolding with_id clear_default
with_id-clear_default id [] = refl
with_id-clear_default id (r ∷ rs) = ground (arith, with_id-clear_default id rs)

pub defaults-clear_default : (rs : List Role) → defaults (clear_default rs) ≡ 0
unfolding defaults clear_default
defaults-clear_default [] = refl
defaults-clear_default (r ∷ rs) = ground (arith, defaults-clear_default rs)

pub defaults-set :
    (k : ℕ) (rs : List Role)
    → defaults rs ≡ 0
    → defaults (change_role (with_default true) k rs) ≡ (if is_some (find_role k rs) then 1 else 0)
unfolding defaults change_role find_role
defaults-set k [] h = refl
defaults-set k (r ∷ rs) h = ground (arith, defaults-set k rs)

-- Among roles that have just lost the flag, the one that gets it is the default.
pub default_role-set :
    (k : ℕ) (rs : List Role)
    → default_role (change_role (with_default true) k (clear_default rs))
      ≡ mapped (with_default true) (find_role k rs)
unfolding default_role change_role clear_default find_role
default_role-set k [] = refl
default_role-set k (r ∷ rs) = ground (arith, default_role-set k rs)

pub find_role-remove_role :
    (k id : ℕ) (rs : List Role)
    → find_role id (remove_role k rs) ≡ (if k == id then none else find_role id rs)
unfolding find_role remove_role
find_role-remove_role k id [] = ground arith
find_role-remove_role k id (r ∷ rs) = ground (arith, find_role-remove_role k id rs)

pub with_id-remove_role :
    (k id : ℕ) (rs : List Role) → with_id id (remove_role k rs) ≤ with_id id rs
unfolding with_id remove_role
with_id-remove_role k id [] = omega arith
with_id-remove_role k id (r ∷ rs) = ground (arith, with_id-remove_role k id rs)

pub defaults-remove_role : (k : ℕ) (rs : List Role) → defaults (remove_role k rs) ≤ defaults rs
unfolding defaults remove_role
defaults-remove_role k [] = omega arith
defaults-remove_role k (r ∷ rs) = ground (arith, defaults-remove_role k rs)
