-- ===== src/Tests/Cli.antt =====
-- Runs of src/cli.rs and of the Docker provider, src/discovery/labels.rs and docker.rs.
use archetype_proxy_server.Prelude.{◌≡◌, refl, true, false, none, some, List, [], ◌∷◌, All}
use archetype_proxy_server.Text.{codes, strip_prefix, rsplit_once, to_ascii_lowercase}
use archetype_proxy_server.Config.Kinds.{discovered, parse_bool_token}
use archetype_proxy_server.Cli.{Args, log_directive}
use archetype_proxy_server.Ordered.{get, insert}
use archetype_proxy_server.Discovery.Labels.{
  Labels, is_true, flag, routes_from_labels, group, named_routes,
}
use archetype_proxy_server.Discovery.Labels.Sound.{IsFrom, routes_from_labels-IsFrom}
use archetype_proxy_server.Discovery.Docker.{Container, Tick, started, run}
use archetype_proxy_server.Discovery.Docker.Changes.{IsSteady, latest, run-IsSteady}
use archetype_proxy_server.Ordered.Keys.{str_ord, str_cmp}

abbrev pub args : Args
args = record {
  positional_path = none;
  config = none;
  listen = none;
  max_body_bytes = some 1024;
  docker = true;
  kubernetes = false;
  log_level = none;
  verbose = 1;
  command = none;
}

debugging : log_directive args ≡ codes "archetype_proxy_server=debug"
unfolding log_directive
debugging = refl

-- A container with a route whose name has a dot.
abbrev labels : Labels
labels =
    (codes "archetype.enable", codes "true")
    ∷ (codes "archetype.route.a.b.upstream", codes "http://api:8080")
    ∷ []

-- The name is kept, with its dot.
dotted :
    (routes_from_labels (codes "deadbeefcafe0000") labels).0
    ≡ record {
      name = codes "docker/deadbeefcafe/a.b";
      host = [];
      path_prefix = [];
      upstream = codes "http://api:8080";
      strict_attestation = none;
      source = discovered;
    }
      ∷ []
unfolding routes_from_labels get insert parse_bool_token strip_prefix rsplit_once to_ascii_lowercase
    group named_routes str_cmp
dotted = refl

routes_from_labels-IsFrom_example :
    (is_true (flag (codes "archetype.enable") labels) ≡ false
      → routes_from_labels (codes "deadbeefcafe0000") labels ≡ ([], []))
    × All
        (IsFrom (codes "deadbeefcafe0000"))
        (routes_from_labels (codes "deadbeefcafe0000") labels).0
routes_from_labels-IsFrom_example = routes_from_labels-IsFrom (codes "deadbeefcafe0000") labels

abbrev container : Container
container = record { id = some (codes "deadbeefcafe0000"); labels = some labels }

-- No daemon, the container, the same again, a failed listing, and no container.
abbrev ticks : List Tick
ticks =
    record { connects = false; listed = none }
    ∷ record { connects = true; listed = some (container ∷ []) }
    ∷ record { connects = true; listed = some (container ∷ []) }
    ∷ record { connects = true; listed = none }
    ∷ record { connects = true; listed = some [] }
    ∷ []

run-IsSteady_example : IsSteady (run (λ routes. true) started ticks) (latest false none ticks)
run-IsSteady_example = run-IsSteady (λ routes. true) (λ routes. refl) ticks
