-- ===== src/Discovery/Kubernetes/Events.antt =====
-- src/discovery/k8s.rs: the operation that an event of kube's watcher stands for. An object is seen
-- through its metadata (`Resource::meta`), which is given.
use archetype_proxy_server.Prelude.{Option, ◌∷◌, ◌++◌, [], unwrap_or}
use archetype_proxy_server.Text.{Str}
use archetype_proxy_server.Ordered.{BTreeMap}
use archetype_proxy_server.Config.Route.{Route}
use archetype_proxy_server.Discovery.Kubernetes.{Op, route_from_annotations}

-- The fields of `ObjectMeta` that are read.
pub record ObjectMeta : Type 0 where
  pub namespace : Option Str
  pub name : Option Str
  pub annotations : Option (BTreeMap Str Str)

-- `kube::runtime::watcher::Event`
pub data Event (K : Type 0) : Type 0 where
  init init_done : Event K
  init_apply apply_one delete : (obj : K) → Event K

module _ {K : Type 0} (meta : K → ObjectMeta) where
  unfoldable pub object_key : K → Str
  object_key obj = let m = meta obj in unwrap_or m.namespace [] ++ b'/' ∷ unwrap_or m.name []

  unfoldable pub route_from_object : K → Option Route
  route_from_object obj =
      let m = meta obj in route_from_annotations (unwrap_or m.name []) (unwrap_or m.annotations [])

  unfoldable pub to_op : Event K → Op
  to_op init = Op.init
  to_op init_done = Op.init_done
  to_op (init_apply obj) = Op.init_apply (object_key obj) (route_from_object obj)
  to_op (apply_one obj) = Op.apply_one (object_key obj) (route_from_object obj)
  to_op (delete obj) = Op.delete (object_key obj)
