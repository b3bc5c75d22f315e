-- ===== src/Discovery/Kubernetes/Relist.antt =====
-- What a listing of the cluster's objects leaves in the store of their kind.
use mathlib.Core.List.{Memᴰ}
use mathlib.Core.List.Memᴰ
use archetype_proxy_server.Prelude.{
  ◌≡◌, ◌≢◌, ◌⊎◌, refl, sym, ◌∙◌, inl, inr, Option, none, some, List, [], ◌∷◌, ◌++◌, map, Bool-cases,
  ap,
}
use archetype_proxy_server.Text.{Str, str_eq}
use archetype_proxy_server.Text.Laws.{eq_of_str_eq, ne_of_str_eq}
use archetype_proxy_server.Ordered.{BTreeMap, get, insert}
use archetype_proxy_server.Ordered.Keys.{str_ord}
use archetype_proxy_server.Ordered.Laws.{get-insert_self, get-insert_ne}
use archetype_proxy_server.Config.Route.{Route}
use archetype_proxy_server.Discovery.Kubernetes.{KindStore, Op}
use archetype_proxy_server.Discovery.Kubernetes.Store.{observed, apply_all, apply_all-listing}
use archetype_proxy_server.Discovery.Kubernetes.Events.{
  ObjectMeta, Event, init, init_done, init_apply, object_key, route_from_object, to_op,
}

-- An object that is read in: only one with a route changes the map.
unfoldable placed : Str × Option Route → BTreeMap Str Route → BTreeMap Str Route
placed (k, some r) m = insert k r m
placed (k, none) m = m

observed-placed :
    (e : Str × Option Route) (m : BTreeMap Str Route) (rest : List (Str × Option Route))
    → observed m (e ∷ rest) ≡ observed (placed e m) rest
unfolding observed placed
observed-placed (k, some r) m rest = refl
observed-placed (k, none) m rest = refl

module _ (key : Str) where
  get-placed_ne :
      (e : Str × Option Route) (m : BTreeMap Str Route)
      → e.0 ≢ key
      → get key (placed e m) ≡ get key m
  unfolding placed
  get-placed_ne (k, some r) m n = get-insert_ne key k r m (λ h. n (sym h))
  get-placed_ne (k, none) m n = refl

  get-placed_self :
      (e : Str × Option Route) (m : BTreeMap Str Route)
      → e.0 ≡ key
      → (get key m ≡ none) ⊎ (get key m ≡ e.1)
      → get key (placed e m) ≡ e.1
  unfolding placed
  get-placed_self (k, some r) m same h = rw (← same) (get-insert_self k r m)
  get-placed_self (k, none) m same (inl h) = h
  get-placed_self (k, none) m same (inr h) = h

-- Objects in the order that they are read, each with its key and the route it has.
module _ {K : Type 0} (entry : K → Str × Option Route) (key : Str) (route : Option Route) where
  -- The objects with the key have `route`.
  unfoldable Agree : List K → Type 0
  Agree objects = (o : K) → Memᴰ o objects → (entry o).0 ≡ key → (entry o).1 ≡ route

  -- Once the map has `route` for the key, it keeps it.
  get-observed_kept :
      (m : BTreeMap Str Route) (objects : List K)
      → Agree objects
      → get key m ≡ route
      → get key (observed m (map entry objects)) ≡ route
  unfolding observed Agree
  get-observed_kept m [] agree h = h
  get-observed_kept m (o ∷ objects) agree h = rw (observed-placed (entry o) m (map entry objects)) (
      get-observed_kept (placed (entry o) m) objects (λ p i. agree p (Memᴰ.tail i))
        (elim (Bool-cases (str_eq (entry o).0 key)) [
          | inl same ↦
              let k = eq_of_str_eq (entry o).0 key same in
              let r = agree o (Memᴰ.head refl) k in
              get-placed_self key (entry o) m k (inr (h ∙ sym r)) ∙ r
          | inr other ↦ get-placed_ne key (entry o) m (ne_of_str_eq (entry o).0 key other) ∙ h
        ]))

  -- An object with the key puts `route` there.
  get-observed_found :
      (m : BTreeMap Str Route) (objects : List K) (o : K)
      → Agree objects
      → Memᴰ o objects
      → (entry o).0 ≡ key
      → (get key m ≡ none) ⊎ (get key m ≡ route)
      → get key (observed m (map entry objects)) ≡ route
  unfolding Agree
  get-observed_found m [] o agree i k h = absurd (Memᴰ.not-nil i)
  get-observed_found m (p ∷ objects) o agree i k h =
      let later : Agree objects = λ q j. agree q (Memᴰ.tail j) in
      rw (observed-placed (entry p) m (map entry objects))
        (elim (Bool-cases (str_eq (entry p).0 key)) [
          | inl same ↦
              let k' = eq_of_str_eq (entry p).0 key same in
              let r = agree p (Memᴰ.head refl) k' in
              get-observed_kept (placed (entry p) m) objects later
                (get-placed_self key (entry p) m k' (rw r h) ∙ r)
          | inr other ↦
              let n = ne_of_str_eq (entry p).0 key other in
              elim (Memᴰ.cases_cons i) [
                | inl e ↦ absurd (n (ap (λ q. (entry q).0) (sym e) ∙ k))
                | inr j ↦
                    get-observed_found (placed (entry p) m) objects o later j k
                      (rw (get-placed_ne key (entry p) m n) h)
              ]
        ])

  -- What is read into an empty map: `route`, which no object needs to have where it is none.
  get-observed :
      (objects : List K)
      → Agree objects
      → (route ≡ none) ⊎ ((o : K) × Memᴰ o objects × ((entry o).0 ≡ key))
      → get key (observed [] (map entry objects)) ≡ route
  unfolding get
  get-observed objects agree (inl e) = get-observed_kept [] objects agree (sym e)
  get-observed objects agree (inr (o, i, k)) = get-observed_found [] objects o agree i k (inl refl)

-- The events of a listing, before its end.
abbrev pub relisting : {K : Type 0} → List K → List (Event K)
relisting objects = init ∷ map init_apply objects

module _ {K : Type 0} (meta : K → ObjectMeta) where
  abbrev entry_of : K → Str × Option Route
  entry_of o = (object_key meta o, route_from_object meta o)

  to_op-init_apply :
      (objects : List K)
      → map (to_op meta) (map init_apply objects)
        ≡ map (λ o. Op.init_apply o.0 o.1) (map entry_of objects)
  unfolding to_op
  to_op-init_apply [] = refl
  to_op-init_apply (o ∷ objects) =
      ap (λ ops. Op.init_apply (object_key meta o) (route_from_object meta o) ∷ ops)
        (to_op-init_apply objects)

  -- At the end of a listing a key has the route that every object listed under it has, and none
  -- where no object is. Until then what is committed stays.
  pub get-relisting :
      (st : KindStore) (objects : List K) (key : Str) (route : Option Route)
      → ((o : K) → Memᴰ o objects → object_key meta o ≡ key → route_from_object meta o ≡ route)
      → (route ≡ none) ⊎ ((o : K) × Memᴰ o objects × (object_key meta o ≡ key))
      → (get key
            (apply_all st
              (map (to_op meta) (relisting objects) ++ to_op meta init_done ∷ [])).committed
          ≡ route)
        × ((apply_all st (map (to_op meta) (relisting objects))).committed ≡ st.committed)
  unfolding Agree to_op
  get-relisting st objects key route agree listed =
      let (whole, before) = apply_all-listing st (map entry_of objects) in
      rw (to_op-init_apply objects) (
        ap (λ s. get key s.committed) whole ∙ get-observed entry_of key route objects agree listed,
        before,
      )
