-- ===== src/Discovery/Kubernetes.antt =====
-- src/discovery/k8s.rs: routes from annotations, and the watcher that keeps the store of each kind.
pub mod Store
pub mod Published
pub mod Events
pub mod Relist
use archetype_proxy_server.Prelude.{
  Bool, true, false, ◌&&◌, not, Option, none, some, List, [], ◌∷◌, ◌++◌, Result, ok, err, is_some,
  unwrap_or, and_then, if◌then◌else◌,
}
use archetype_proxy_server.Text.{Str, codes, str_eq}
use archetype_proxy_server.Ordered.{BTreeMap, get, insert, remove, values}
use archetype_proxy_server.Ordered.Keys.{str_ord}
use archetype_proxy_server.Config.Kinds.{discovered, parse_bool_token}
use archetype_proxy_server.Config.Route.{Route}
use archetype_proxy_server.Discovery.Equal.{route_eq, option_eq, list_eq, entry_eq}

-- `annotations.get(STRICT).and_then(|v| parse_bool_token(v))`
abbrev flag : Str → BTreeMap Str Str → Option Bool
flag key annotations = and_then (get key annotations) parse_bool_token

abbrev pub opted_in : Option Bool → Bool
opted_in (some true) = true
opted_in (some false) = false
opted_in none = false

abbrev annotated_route : Str → BTreeMap Str Str → Option Str → Option Route
annotated_route object_name annotations none = none
annotated_route object_name annotations (some upstream) = some (record {
  name = codes "k8s/" ++ object_name;
  host = unwrap_or (get (codes "archetype.li/host") annotations) [];
  path_prefix = unwrap_or (get (codes "archetype.li/path-prefix") annotations) [];
  upstream = upstream;
  strict_attestation = flag (codes "archetype.li/strict") annotations;
  source = discovered;
})

unfoldable pub route_from_annotations : Str → BTreeMap Str Str → Option Route
route_from_annotations object_name annotations =
    if opted_in (flag (codes "archetype.li/enable") annotations)
    then annotated_route object_name annotations (get (codes "archetype.li/upstream") annotations)
    else none

pub data Kind : Type 0 where
  service ingress : Kind

pub data Op : Type 0 where
  init init_done : Op
  init_apply apply_one : (key : Str) (route : Option Route) → Op
  delete : (key : Str) → Op

pub record KindStore : Type 0 where
  pub committed : BTreeMap Str Route
  pub buffer : Option (BTreeMap Str Route)

abbrev pub empty : KindStore
empty = record { committed = []; buffer = none }

abbrev buffered : Str → Option Route → Option (BTreeMap Str Route) → Option (BTreeMap Str Route)
buffered key (some r) (some buf) = some (insert key r buf)
buffered key none buf = buf
buffered key (some r) none = none

abbrev pub committing : KindStore → BTreeMap Str Route → KindStore
committing st m = record { committed = m; buffer = st.buffer }

-- `KindStore::apply`: the store, and whether what is committed changed.
unfoldable pub apply : KindStore → Op → KindStore × Bool
apply st init = (record { committed = st.committed; buffer = some [] }, false)
apply st (init_apply key route) =
    (record { committed = st.committed; buffer = buffered key route st.buffer }, false)
apply st init_done =
    let new = unwrap_or st.buffer [] in
    (record { committed = new; buffer = none }, not (list_eq entry_eq new st.committed))
apply st (apply_one key (some r)) = (
  committing st (insert key r st.committed),
  not (option_eq route_eq (get key st.committed) (some r)),
)
apply st (apply_one key none) =
    (committing st (remove key st.committed), is_some (get key st.committed))
apply st (delete key) = (committing st (remove key st.committed), is_some (get key st.committed))

-- The state of the watcher's loop. `sent` are the snapshots that the manager was sent, the last one
-- first, and `closed` holds once the manager dropped the receiver.
pub record Watcher : Type 0 where
  pub svc_store : KindStore
  pub ing_store : KindStore
  pub last_sent : Option (List Route)
  pub sent : List (List Route)
  pub closed : Bool

abbrev pub started : Watcher
started = record {
  svc_store = empty;
  ing_store = empty;
  last_sent = none;
  sent = [];
  closed = false;
}

abbrev pub snapshot : KindStore → KindStore → List Route
snapshot svc ing = values svc.committed ++ values ing.committed

-- From the changed stores on. `open_for` says whether the receiver takes a snapshot.
abbrev publish : (List Route → Bool) → Watcher → KindStore → KindStore → Watcher
publish open_for w svc ing =
    let routes = snapshot svc ing in
    if option_eq (list_eq route_eq) w.last_sent (some routes)
    then record {
      svc_store = svc;
      ing_store = ing;
      last_sent = w.last_sent;
      sent = w.sent;
      closed = false;
    }
    else if open_for routes
    then record {
      svc_store = svc;
      ing_store = ing;
      last_sent = some routes;
      sent = routes ∷ w.sent;
      closed = false;
    }
    else record {
      svc_store = svc;
      ing_store = ing;
      last_sent = w.last_sent;
      sent = w.sent;
      closed = true;
    }

abbrev after_change : (List Route → Bool) → Watcher → KindStore → KindStore → Bool → Watcher
after_change open_for w svc ing true = publish open_for w svc ing
after_change open_for w svc ing false = record {
  svc_store = svc;
  ing_store = ing;
  last_sent = w.last_sent;
  sent = w.sent;
  closed = false;
}

-- One turn of the loop: an error of the watch is passed over.
unfoldable pub turn : (List Route → Bool) → Watcher → Result Str (Kind × Op) → Watcher
unfolding apply
turn open_for w (err e) = w
turn open_for w (ok (service, op)) =
    let (st, changed) = apply w.svc_store op in after_change open_for w st w.ing_store changed
turn open_for w (ok (ingress, op)) =
    let (st, changed) = apply w.ing_store op in after_change open_for w w.svc_store st changed

-- The loop, which returns once the receiver is gone.
unfoldable pub run : (List Route → Bool) → Watcher → List (Result Str (Kind × Op)) → Watcher
run open_for w [] = w
run open_for w (item ∷ more) =
    let next = turn open_for w item in
    let rest = run open_for next more in if next.closed then next else rest
