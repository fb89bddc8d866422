-- ===== src/Roles/Permissions/Fixpoint.antt =====
-- `_apply_permission_dependencies` ends after two rounds, with the least closed permissions.
use remote_connect_backend.Base.{
  ◌≡◌, refl, ◌∙◌, ap, ◌↔◌, Bool, true, false, some, List, [], ◌∷◌, arith, Bool-cases, inl, inr,
}
use remote_connect_backend.Base.Text.{Text, ≐_self, eq_of-≐, contains}
use remote_connect_backend.Base.Dict.{lookup_or, keys}
use remote_connect_backend.Roles.Permissions.{
  get_method, is_elevated, any_elevated, Permissions, State, add_get, get_loop, add_method,
  ancestor_loop, method_loop, group_loop, round, rounds, apply_permission_dependencies,
}
use remote_connect_backend.Roles.Permissions.Adding.{
  has, has-method_loop, has-add_get, any_elevated_from,
}
use remote_connect_backend.Roles.Permissions.Closure.{HasGet, IsClosed, round-IsClosed}

add_get-fixed : (k : Text) (r : Permissions) (c : Bool) → HasGet r k → add_get k (r, c) ≡ (r, c)
unfolding add_get
add_get-fixed k r c closed = elim (Bool-cases (any_elevated (lookup_or [] k r))) [
  | inr plain ↦ ground (arith, plain)
  | inl elevated ↦
      let (m, there, e) = any_elevated_from (lookup_or [] k r) elevated in
      ground (arith, closed m there e)
]

get_loop-fixed :
    (ks : List Text) (r : Permissions) (c : Bool)
    → ((g : Text) → HasGet r g)
    → get_loop ks (r, c) ≡ (r, c)
unfolding get_loop
get_loop-fixed [] r c closed = refl
get_loop-fixed (k ∷ ks) r c closed =
    ap (get_loop ks) (add_get-fixed k r c (closed k)) ∙ get_loop-fixed ks r c closed

add_method-fixed :
    (m a : Text) (r : Permissions) (c : Bool) → has r a m ≡ true → add_method m a (r, c) ≡ (r, c)
unfolding add_method
add_method-fixed m a r c there = ground arith

ancestor_loop-fixed :
    (m : Text) (ids : List Text) (r : Permissions) (c : Bool)
    → ((a : Text) → contains a ids ≡ true → has r a m ≡ true)
    → ancestor_loop m ids (r, c) ≡ (r, c)
unfolding ancestor_loop
ancestor_loop-fixed m [] r c there = refl
ancestor_loop-fixed m (a ∷ ids) r c there =
    ap (ancestor_loop m ids) (add_method-fixed m a r c (there a (rw (≐_self a) refl)))
    ∙ ancestor_loop-fixed m ids r c (λ x h. there x (ground arith))

method_loop-fixed :
    (ids ms : List Text) (r : Permissions) (c : Bool)
    → ((m a : Text) → contains m ms ≡ true → contains a ids ≡ true → has r a m ≡ true)
    → method_loop ids ms (r, c) ≡ (r, c)
unfolding method_loop
method_loop-fixed ids [] r c there = refl
method_loop-fixed ids (m ∷ ms) r c there =
    ap (method_loop ids ms) (ancestor_loop-fixed m ids r c (λ a. there m a (rw (≐_self m) refl)))
    ∙ method_loop-fixed ids ms r c (λ x a h. there x a (ground arith))

module _ (get_ancestor_ids : Text → List Text) where
  group_loop-fixed :
      (ks : List Text) (r : Permissions) (c : Bool)
      → IsClosed get_ancestor_ids r
      → group_loop get_ancestor_ids ks (r, c) ≡ (r, c)
  unfolding group_loop
  group_loop-fixed [] r c closed = refl
  group_loop-fixed (k ∷ ks) r c closed =
      ap (group_loop get_ancestor_ids ks)
        (method_loop-fixed (get_ancestor_ids k) (lookup_or [] k r) r c (closed.passes_up k))
      ∙ group_loop-fixed ks r c closed

  round-fixed :
      (r : Permissions) → IsClosed get_ancestor_ids r → round get_ancestor_ids r ≡ (r, false)
  unfolding round
  round-fixed r closed =
      let same = get_loop-fixed (keys r) r false closed.has_get in
      ap (λ (s : State). group_loop get_ancestor_ids (keys s.0) s) same
      ∙ group_loop-fixed (keys r) r false closed

  rounds_end :
      (r : Permissions)
      → IsClosed get_ancestor_ids (round get_ancestor_ids r).0
      → rounds get_ancestor_ids 2 r ≡ some (round get_ancestor_ids r).0
  unfolding rounds
  rounds_end r closed = ground (arith, round-fixed (round get_ancestor_ids r).0 closed)

  -- What a role needs, given the permissions `p`.
  pub data Needed (p : Permissions) : Text → Text → Type 0 where
    given : (g m : Text) → has p g m ≡ true → Needed p g m
    implied :
        (g m m' : Text) → Needed p g m → is_elevated m ≡ true → m' ≡ get_method → Needed p g m'
    inherited :
        (g m a : Text) → Needed p g m → contains a (get_ancestor_ids g) ≡ true → Needed p a m

  abbrev OnlyNeeded : Permissions → Permissions → Type 0
  OnlyNeeded p r = (g m : Text) → has r g m ≡ true → Needed p g m

  abbrev Keeps : Permissions → Permissions → Type 0
  Keeps r r' = (g m : Text) → has r g m ≡ true → has r' g m ≡ true

  Needed-closed :
      (p r : Permissions) (g m : Text)
      → IsClosed get_ancestor_ids r
      → Keeps p r
      → Needed p g m
      → has r g m ≡ true
  Needed-closed p r g m closed keeps (given _ _ h) = keeps g m h
  Needed-closed p r g m closed keeps (implied _ m' _ need e is_get) =
      rw is_get (closed.has_get g m' (Needed-closed p r g m' closed keeps need) e)
  Needed-closed p r g m closed keeps (inherited g' _ _ need up) =
      closed.passes_up g' m g (Needed-closed p r g' m closed keeps need) up

  add_get-OnlyNeeded :
      (p : Permissions) (k : Text) (s : State) → OnlyNeeded p s.0 → OnlyNeeded p (add_get k s).0
  add_get-OnlyNeeded p k s old g m h = elim (Bool-cases (has s.0 g m)) [
    | inl before ↦ old g m before
    | inr added ↦
        let e : any_elevated (lookup_or [] k s.0) ≡ true = ground (arith, has-add_get k s g m) in
        let (x, there, x_elevated) = any_elevated_from (lookup_or [] k s.0) e in
        let same : g ≡ k = ground (arith, has-add_get k s g m, eq_of-≐ k g) in
        let is_get : m ≡ get_method = ground (arith, has-add_get k s g m, eq_of-≐ m get_method) in
        implied g x m (rw same (old k x there)) x_elevated is_get
  ]

  get_loop-OnlyNeeded :
      (p : Permissions) (ks : List Text) (s : State)
      → OnlyNeeded p s.0
      → OnlyNeeded p (get_loop ks s).0
  unfolding get_loop
  get_loop-OnlyNeeded p [] s old = old
  get_loop-OnlyNeeded p (k ∷ ks) s old =
      get_loop-OnlyNeeded p ks (add_get k s) (add_get-OnlyNeeded p k s old)

  group_loop-OnlyNeeded :
      (p : Permissions) (ks : List Text) (s : State)
      → OnlyNeeded p s.0
      → OnlyNeeded p (group_loop get_ancestor_ids ks s).0
  unfolding group_loop
  group_loop-OnlyNeeded p [] s old = old
  group_loop-OnlyNeeded p (k ∷ ks) s old =
      group_loop-OnlyNeeded p ks (method_loop (get_ancestor_ids k) (lookup_or [] k s.0) s) (λ g m h.
        let step = has-method_loop (get_ancestor_ids k) (lookup_or [] k s.0) s g m in
        elim (Bool-cases (has s.0 g m)) [
          | inl before ↦ old g m before
          | inr added ↦ inherited k m g (old k m (ground (arith, step))) (ground (arith, step))
        ])

  get_loop-Keeps : (ks : List Text) (s : State) → Keeps s.0 (get_loop ks s).0
  unfolding get_loop
  get_loop-Keeps [] s g m h = h
  get_loop-Keeps (k ∷ ks) s g m h =
      get_loop-Keeps ks (add_get k s) g m (ground (arith, has-add_get k s g m))

  group_loop-Keeps : (ks : List Text) (s : State) → Keeps s.0 (group_loop get_ancestor_ids ks s).0
  unfolding group_loop
  group_loop-Keeps [] s g m h = h
  group_loop-Keeps (k ∷ ks) s g m h =
      group_loop-Keeps ks (method_loop (get_ancestor_ids k) (lookup_or [] k s.0) s) g m
        (ground (arith, has-method_loop (get_ancestor_ids k) (lookup_or [] k s.0) s g m))

  round-OnlyNeeded : (p : Permissions) → OnlyNeeded p (round get_ancestor_ids p).0
  unfolding round
  round-OnlyNeeded p =
      let s = get_loop (keys p) (p, false) in
      group_loop-OnlyNeeded p (keys s.0) s
        (get_loop-OnlyNeeded p (keys p) (p, false) (λ g m h. given g m h))

  round-Keeps : (p : Permissions) → Keeps p (round get_ancestor_ids p).0
  unfolding round
  round-Keeps p g m h =
      let s = get_loop (keys p) (p, false) in
      group_loop-Keeps (keys s.0) s g m (get_loop-Keeps (keys p) (p, false) g m h)

  -- For any permissions the loop ends, and a group then has a method exactly if the permissions
  -- need it: it was given, or it is GET where another valid method is, or a group below has it.
  -- The ancestors of an ancestor are ancestors.
  pub apply_permission_dependencies-Needed :
      (p : Permissions)
      → ((g a b : Text)
          → contains a (get_ancestor_ids g) ≡ true
          → contains b (get_ancestor_ids a) ≡ true
          → contains b (get_ancestor_ids g) ≡ true)
      → (r : Permissions) × (apply_permission_dependencies get_ancestor_ids (some p) ≡ some r)
        × ((g m : Text) → (has r g m ≡ true) ↔ Needed p g m)
  unfolding apply_permission_dependencies
  apply_permission_dependencies-Needed p transitive =
      let closed = round-IsClosed get_ancestor_ids transitive p in
      (
        (round get_ancestor_ids p).0,
        rounds_end p closed,
        λ g m. (
          round-OnlyNeeded p g m,
          Needed-closed p (round get_ancestor_ids p).0 g m closed (round-Keeps p),
        ),
      )

  -- Where the ancestors of an ancestor are ancestors, the result of the closure is its own closure.
  pub apply_permission_dependencies_idem :
      (p : Permissions)
      → ((g a b : Text)
          → contains a (get_ancestor_ids g) ≡ true
          → contains b (get_ancestor_ids a) ≡ true
          → contains b (get_ancestor_ids g) ≡ true)
      → (r : Permissions) × (apply_permission_dependencies get_ancestor_ids (some p) ≡ some r)
        × (apply_permission_dependencies get_ancestor_ids (some r) ≡ some r)
  unfolding apply_permission_dependencies
  apply_permission_dependencies_idem p transitive =
      let r = (round get_ancestor_ids p).0 in
      let closed = round-IsClosed get_ancestor_ids transitive p in
      let same = round-fixed r closed in
      (r, rounds_end p closed, rounds_end r (rw same closed) ∙ ap (λ (s : State). some s.0) same)
