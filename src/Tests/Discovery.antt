-- ===== src/Tests/Discovery.antt =====
-- Runs of src/discovery.
use mathlib.Core.List.{Memᴰ}
use mathlib.Core.List.Memᴰ
use archetype_proxy_server.Prelude.{
  ◌≡◌, ◌≢◌, ◌↔◌, ◌⊎◌, inl, inr, refl, true, none, some, List, [], ◌∷◌, ◌++◌, map, Result, ok, err,
}
use archetype_proxy_server.Text.{Str, codes, str_eq}
use archetype_proxy_server.Text.Laws.{ne_of_str_eq}
use archetype_proxy_server.Ordered.{BTreeMap, get}
use archetype_proxy_server.Ordered.Keys.{str_ord, str_cmp}
use archetype_proxy_server.Config.Kinds.{Source, parse_bool_token}
use archetype_proxy_server.Config.Route.{Route}
use archetype_proxy_server.Discovery.Manager.{ProviderUpdate, new}
use archetype_proxy_server.Discovery.Manager as Manager
use archetype_proxy_server.Discovery.Manager.Live.{latest, run_iff}
use archetype_proxy_server.Discovery.Kubernetes.{
  Kind, service, ingress, Op, init, init_done, init_apply, delete, empty, started, run,
  route_from_annotations,
}
use archetype_proxy_server.Discovery.Kubernetes.Store.{apply_all}
use archetype_proxy_server.Discovery.Kubernetes.Events.{
  ObjectMeta, Event, object_key, route_from_object, to_op,
}
use archetype_proxy_server.Discovery.Kubernetes.Relist.{relisting, get-relisting}
use archetype_proxy_server.Discovery.Kubernetes.Published.{IsPublished, run-IsPublished}

abbrev route : Str → Source → Route
route name source = record {
  name = name;
  host = [];
  path_prefix = [];
  upstream = codes "http://api:8080";
  strict_attestation = none;
  source = source;
}

abbrev static_route : Route
static_route = route (codes "static") Source.file

abbrev api : Route
api = route (codes "k8s/api") Source.discovered

-- The second snapshot of a provider replaces its first.
abbrev updates : List ProviderUpdate
updates =
    record { provider = codes "docker"; routes = api ∷ [] }
    ∷ record { provider = codes "kubernetes"; routes = api ∷ [] }
    ∷ record { provider = codes "docker"; routes = [] }
    ∷ []

run_iff_example : Memᴰ api (Manager.run (new (static_route ∷ [])) updates).table.routes ↔ (
    Memᴰ api (static_route ∷ [])
    ⊎ ((p : Str) × (rs : List Route) × (latest p none updates ≡ some rs) × Memᴰ api rs))
run_iff_example = run_iff (static_route ∷ []) updates api

-- `synthetic_service_reconciles_to_route` and `not_opted_in_object_yields_no_route`: an object is
-- its metadata.
abbrev service_of : Str → BTreeMap Str Str → ObjectMeta
service_of name annotations = record {
  namespace = some (codes "prod");
  name = some name;
  annotations = some annotations;
}

abbrev opted : ObjectMeta
opted = service_of (codes "api") (
    (codes "archetype.li/enable", codes "true")
    ∷ (codes "archetype.li/upstream", codes "http://api:8080")
    ∷ [])

abbrev bare : ObjectMeta
bare = service_of (codes "other") []

abbrev metadata : ObjectMeta → ObjectMeta
metadata o = o

object_key-opted : object_key metadata opted ≡ codes "prod/api"
unfolding object_key
object_key-opted = refl

route_from_object-opted : route_from_object metadata opted ≡ some api
unfolding route_from_object route_from_annotations parse_bool_token get str_cmp
route_from_object-opted = refl

bare_ne_opted : object_key metadata bare ≢ codes "prod/api"
unfolding object_key str_eq
bare_ne_opted e = ne_of_str_eq (codes "prod/other") (codes "prod/api") refl e

agreed :
    (o : ObjectMeta)
    → Memᴰ o (opted ∷ bare ∷ [])
    → object_key metadata o ≡ codes "prod/api"
    → route_from_object metadata o ≡ some api
agreed o i k = elim (Memᴰ.cases_cons i) [
  | inl e ↦ rw e route_from_object-opted
  | inr j ↦ elim (Memᴰ.cases_cons j) [
    | inl e ↦ absurd (bare_ne_opted (rw e at k))
    | inr l ↦ absurd (Memᴰ.not-nil l)
  ]
]

get-relisting_example :
    (get
        (codes "prod/api")
        (apply_all empty (
          map (to_op metadata) (relisting (opted ∷ bare ∷ []))
          ++ to_op metadata Event.init_done ∷ [])).committed
      ≡ some api)
    × ((apply_all empty (map (to_op metadata) (relisting (opted ∷ bare ∷ [])))).committed ≡ [])
get-relisting_example =
    get-relisting metadata empty (opted ∷ bare ∷ []) (codes "prod/api") (some api) agreed
      (inr (opted, Memᴰ.head refl, object_key-opted))

abbrev watched : List (Result Str (Kind × Op))
watched =
    ok (service, init)
    ∷ ok (service, init_apply (codes "ns/api") (some api))
    ∷ err (codes "timeout")
    ∷ ok (service, init_done)
    ∷ ok (ingress, delete (codes "ns/web"))
    ∷ []

run-IsPublished_example : IsPublished (run (λ routes. true) started watched)
run-IsPublished_example = run-IsPublished (λ routes. true) (λ routes. refl) watched
