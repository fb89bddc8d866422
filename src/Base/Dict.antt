-- ===== src/Base/Dict.antt =====
-- Python's `dict` with text keys, as the list of its entries in insertion order.
use mathlib.Core.Path.{◌≡◌, refl}
use mathlib.Core.Option.{Option, none, some}
use mathlib.Core.List.{List, [], ◌∷◌}
use native.Mathlib.Omega.{arith}
use remote_connect_backend.Base.Tests.{if◌then◌else◌, is_some}
use remote_connect_backend.Base.Text.{Text, ◌≐◌, ≐_iff, contains}

abbrev pub Dict {ℓ} : Type ℓ → Type ℓ
Dict V = List (Text × V)

module _ {ℓ} {V : Type ℓ} where
  -- `d.get(k)`
  abbrev pub lookup : Text → Dict V → Option V
  lookup k [] = none
  lookup k ((j, v) ∷ d) = if j ≐ k then some v else lookup k d

  -- `d.get(k, default)`
  abbrev pub lookup_or : V → Text → Dict V → V
  lookup_or default k d = elim (lookup k d) [ none ↦ default | some v ↦ v ]

  -- `d[k] = v` keeps the place of a key that is there.
  abbrev pub insert : Text → V → Dict V → Dict V
  insert k v [] = (k, v) ∷ []
  insert k v ((j, w) ∷ d) = if j ≐ k then (j, v) ∷ d else (j, w) ∷ insert k v d

  -- `d.setdefault(k, default)` as its effect on `d`.
  abbrev pub setdefault : Text → V → Dict V → Dict V
  setdefault k default d = if is_some (lookup k d) then d else insert k default d

  -- `list(d.keys())`
  abbrev pub keys : Dict V → List Text
  keys [] = []
  keys ((k, v) ∷ d) = k ∷ keys d

  pub lookup-insert :
      (k j : Text) (v : V) (d : Dict V)
      → lookup j (insert k v d) ≡ (if k ≐ j then some v else lookup j d)
  lookup-insert k j v [] = refl
  lookup-insert k j v ((i, w) ∷ d) =
      ground (arith, ≐_iff k j, ≐_iff i k, ≐_iff i j, lookup-insert k j v d)

  -- The keys are those at which a lookup succeeds.
  pub contains-keys : (k : Text) (d : Dict V) → contains k (keys d) ≡ is_some (lookup k d)
  contains-keys k [] = refl
  contains-keys k ((j, v) ∷ d) = ground (arith, contains-keys k d, ≐_iff k j, ≐_iff j k)
