-- ===== src/Discovery/Manager/Live.antt =====
-- What the live table holds.
use mathlib.Core.List.{Memᴰ}
use mathlib.Core.List.Memᴰ
use archetype_proxy_server.Prelude.{
  ◌≡◌, refl, Ordering, ◌↔◌, ◌⊎◌, inl, inr, Option, none, some, List, [], ◌∷◌, ◌++◌, Bool-cases,
  arith, ap, sym, ◌∙◌, append-nil, if◌then◌else◌,
}
use archetype_proxy_server.Text.{Str, str_eq}
use archetype_proxy_server.Text.Laws.{eq_of_str_eq, str_eq_refl, ne_of_str_eq}
use archetype_proxy_server.Ordered.{BTreeMap, get, values, IsOrdered, Above}
use archetype_proxy_server.Ordered.Keys.{str_ord}
use archetype_proxy_server.Ordered.Laws.{
  get-insert_self, get-insert_ne, insert-IsOrdered, get_below, get_at,
}
use archetype_proxy_server.Config.Route
use archetype_proxy_server.Config.Route.{Route, RouteTable}
use archetype_proxy_server.Config.Route.Members.{new-Memᴰ_iff}
use archetype_proxy_server.Discovery.Manager.{
  ProviderUpdate, RouteManager, new, concat, update, run,
}

-- The last snapshot that a provider sent.
unfoldable pub latest : Str → Option (List Route) → List ProviderUpdate → Option (List Route)
latest p before [] = before
latest p before (u ∷ us) = latest p (if str_eq p u.provider then some u.routes else before) us

get-update :
    (p : Str) (m : RouteManager) (u : ProviderUpdate)
    → get p (update m u).provider_routes
      ≡ (if str_eq p u.provider then some u.routes else get p m.provider_routes)
unfolding update
get-update p m u = elim (Bool-cases (str_eq p u.provider)) [
  | inl same ↦
      rw (eq_of_str_eq p u.provider same, str_eq_refl u.provider)
        (get-insert_self u.provider u.routes m.provider_routes)
  | inr other ↦
      rw other
        (get-insert_ne p u.provider u.routes m.provider_routes (ne_of_str_eq p u.provider other))
]

run-latest :
    (p : Str) (m : RouteManager) (us : List ProviderUpdate)
    → get p (run m us).provider_routes ≡ latest p (get p m.provider_routes) us
unfolding run latest
run-latest p m [] = refl
run-latest p m (u ∷ us) = run-latest p (update m u) us ∙ ap (λ o. latest p o us) (get-update p m u)

-- The snapshots ascend by provider, the file's routes stay, and the table is that of both.
pub record IsMerged (file_routes : List Route) (m : RouteManager) : Type 0 where
  pub same_file : m.file_routes ≡ file_routes
  pub ordered : IsOrdered m.provider_routes
  pub merged : m.table ≡ Route.new (file_routes ++ concat (values m.provider_routes))

run-IsMerged :
    (file_routes : List Route) (m : RouteManager) (us : List ProviderUpdate)
    → IsMerged file_routes m
    → IsMerged file_routes (run m us)
unfolding run update
run-IsMerged file_routes m [] h = h
run-IsMerged file_routes m (u ∷ us) h = run-IsMerged file_routes (update m u) us (record {
  same_file = h.same_file;
  ordered = insert-IsOrdered u.provider u.routes m.provider_routes h.ordered;
  merged = rw h.same_file refl;
})

get_empty : (p : Str) (rs : List Route) → ¬ (get p [] ≡ some rs)
unfolding get
get_empty p rs e = cc

get_here : (k : Str) (v : List Route) (m : BTreeMap Str (List Route)) → get k ((k, v) ∷ m) ≡ some v
unfolding get
get_here k v m = rw (str_ord.reflexive k, get)

at_head :
    (c : Ordering) {o : Option (List Route)} {v rs : List Route}
    → (elim c [ Ordering.lt ↦ none | Ordering.eq ↦ some v | Ordering.gt ↦ o ]) ≡ some rs
    → (v ≡ rs) ⊎ (o ≡ some rs)
at_head Ordering.lt e = cc
at_head Ordering.eq e = inl (cc)
at_head Ordering.gt e = inr e

get_cases :
    (p k : Str) (v rs : List Route) (m : BTreeMap Str (List Route))
    → get p ((k, v) ∷ m) ≡ some rs
    → (v ≡ rs) ⊎ (get p m ≡ some rs)
unfolding get
get_cases p k v rs m e = at_head (str_ord.cmp p k) e

get_later :
    (p k : Str) (v rs : List Route) (m : BTreeMap Str (List Route))
    → Above k m
    → get p m ≡ some rs
    → get p ((k, v) ∷ m) ≡ some rs
unfolding get
get_later p k v rs m a e =
    ground (arith, get_below k p m a, get_at k m a, str_ord.antisymmetric p k)

-- A route stands in the concatenated snapshots exactly when some provider's holds it.
Memᴰ-concat_iff :
    (r : Route) (m : BTreeMap Str (List Route))
    → IsOrdered m
    → Memᴰ r (concat (values m)) ↔ ((p : Str) × (rs : List Route) × (get p m ≡ some rs) × Memᴰ r rs)
Memᴰ-concat_iff r [] h = (λ m. absurd (Memᴰ.not-nil m), λ x. absurd (get_empty x.0 x.1 x.2))
Memᴰ-concat_iff r ((k, v) ∷ m) (a, h) = (
  λ mem. elim (Memᴰ.append_cases v mem) [
    | inl here ↦ (k, v, get_here k v m, here)
    | inr there ↦
        let (p, rs, e, inside) = (Memᴰ-concat_iff r m h).0 there in
        (p, rs, get_later p k v rs m a e, inside)
  ],
  λ x.
      let (p, rs, e, inside) = x in
      elim (get_cases p k v rs m e) [
        | inl same ↦ Memᴰ.append_left (concat (values m)) (rw same inside)
        | inr later ↦ Memᴰ.append_right v ((Memᴰ-concat_iff r m h).1 (p, rs, later, inside))
      ],
)

new-IsMerged : (file_routes : List Route) → IsMerged file_routes (new file_routes)
unfolding new
new-IsMerged file_routes = record {
  same_file = refl;
  ordered = tt;
  merged = ap Route.new (sym (append-nil file_routes));
}

run_found :
    (p : Str) (file_routes : List Route) (us : List ProviderUpdate)
    → get p (run (new file_routes) us).provider_routes ≡ latest p none us
unfolding new get
run_found p file_routes us = run-latest p (new file_routes) us

-- At every time the live table holds the routes of the file, and of each provider those of the last
-- snapshot that it sent, and no others.
pub run_iff :
    (file_routes : List Route) (us : List ProviderUpdate) (r : Route)
    → Memᴰ r (run (new file_routes) us).table.routes ↔ (
        Memᴰ r file_routes
        ⊎ ((p : Str) × (rs : List Route) × (latest p none us ≡ some rs) × Memᴰ r rs))
run_iff file_routes us r =
    let m = run (new file_routes) us in
    let merged : IsMerged file_routes m =
      run-IsMerged file_routes (new file_routes) us (new-IsMerged file_routes) in
    let found : (p : Str) → get p m.provider_routes ≡ latest p none us =
      (λ p. run_found p file_routes us) in
    let all = file_routes ++ concat (values m.provider_routes) in
    let inside = Memᴰ-concat_iff r m.provider_routes merged.ordered in
    (
      λ mem.
          elim (Memᴰ.append_cases file_routes ((new-Memᴰ_iff all r).0 (rw merged.merged at mem))) [
            | inl f ↦ inl f
            | inr d ↦ let (p, rs, e, i) = inside.0 d in inr (p, rs, sym (found p) ∙ e, i)
          ],
      λ s. rw merged.merged (
          (new-Memᴰ_iff all r).1 (elim s [
            | inl f ↦ Memᴰ.append_left (concat (values m.provider_routes)) f
            | inr (p, rs, e, i) ↦ Memᴰ.append_right file_routes (inside.1 (p, rs, found p ∙ e, i))
          ])),
    )
