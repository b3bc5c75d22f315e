-- ===== src/Discovery/Manager.antt =====
-- `RouteManager` of src/discovery/mod.rs. The handle that the proxy reads is the field `table`.
pub mod Live
use archetype_proxy_server.Prelude.{List, [], ◌∷◌, ◌++◌, Option}
use archetype_proxy_server.Text.{Str}
use archetype_proxy_server.Ordered.{BTreeMap, insert, values}
use archetype_proxy_server.Ordered.Keys.{str_ord}
use archetype_proxy_server.Config.Route
use archetype_proxy_server.Config.Route.{Route, RouteTable}

pub record ProviderUpdate : Type 0 where
  pub provider : Str
  pub routes : List Route

pub record RouteManager : Type 0 where
  pub file_routes : List Route
  pub provider_routes : BTreeMap Str (List Route)
  pub table : RouteTable

unfoldable pub new : List Route → RouteManager
new file_routes = record {
  file_routes = file_routes;
  provider_routes = [];
  table = Route.new file_routes;
}

-- `all.extend` for each snapshot in turn
abbrev pub concat {ℓ} : {A : Type ℓ} → List (List A) → List A
concat [] = []
concat (xs ∷ xss) = xs ++ concat xss

unfoldable pub recompute : RouteManager → RouteManager
recompute m = record {
  file_routes = m.file_routes;
  provider_routes = m.provider_routes;
  table = Route.new (m.file_routes ++ concat (values m.provider_routes));
}

-- One turn of the loop of `run`.
unfoldable pub update : RouteManager → ProviderUpdate → RouteManager
unfolding recompute
update m u = recompute (record {
  file_routes = m.file_routes;
  provider_routes = insert u.provider u.routes m.provider_routes;
  table = m.table;
})

-- `run`, on the updates that it receives until all senders drop
unfoldable pub run : RouteManager → List ProviderUpdate → RouteManager
unfolding update
run m [] = m
run m (u ∷ us) = run (update m u) us
