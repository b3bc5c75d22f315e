-- ===== src/Config/Layers.antt =====
-- The merge of the layers: `resolve` and `Config::resolve_layers` of src/config.rs.
pub mod Precedence
pub mod Recorded
use archetype_proxy_server.Prelude.{
  ℕ, ◌*◌, Bool, true, false, Option, none, some, List, [], ◌∷◌, map_some, is_empty, if◌then◌else◌,
}
use archetype_proxy_server.Text.{Str, codes}
use archetype_proxy_server.Ordered.{insert, get}
use archetype_proxy_server.Ordered.Keys.{str_ord}
use archetype_proxy_server.Config.Kinds.{Source, TeeProviderKind, VerifierKind}
use archetype_proxy_server.Config.Route.{Route, RouteTable, new}
use archetype_proxy_server.Config.Settings.{
  SocketAddr, TlsConfig, TpmConfig, StaticConfig, Provenance, Config, PartialStatic,
}

abbrev pub default_max_body_bytes : ℕ
default_max_body_bytes = 4 * 1024 * 1024

abbrev pub default_listen : SocketAddr
default_listen = record { ip = codes "127.0.0.1"; port = 8443 }

abbrev pub default_docker_socket : Str
default_docker_socket = codes "unix:///var/run/docker.sock"

abbrev pub default_docker_poll_secs : ℕ
default_docker_poll_secs = 10

abbrev pub default_atb_ttl_secs : ℕ
default_atb_ttl_secs = 300

abbrev pub default_atb_eviction_interval_secs : ℕ
default_atb_eviction_interval_secs = 60

abbrev pub default_atb_max_sessions : ℕ
default_atb_max_sessions = 10_000

abbrev pub default_rate_limit_max_requests : ℕ
default_rate_limit_max_requests = 0

abbrev pub default_rate_limit_window_secs : ℕ
default_rate_limit_window_secs = 60

-- `namespace_layer`: absent is silent, the empty text clears, any other text sets.
unfoldable pub namespace_layer : Option Str → Option (Option Str)
namespace_layer v = map_some (λ s. if is_empty s then none else some s) v

-- `Provenance::record`
unfoldable pub record_source : Str → Source → Provenance → Provenance
unfolding insert
record_source field source prov = insert field source prov

-- The loop of `resolve` over the layers, lowest first: a value and the provenance are carried on.
unfoldable pub resolve_loop {ℓ} :
    {T : Type ℓ} → Str → List (Source × Option T) → T → Provenance → T × Provenance
unfolding record_source
resolve_loop field [] value prov = (value, prov)
resolve_loop field ((source, none) ∷ layers) value prov = resolve_loop field layers value prov
resolve_loop field ((source, some v) ∷ layers) value prov =
    resolve_loop field layers v (record_source field source prov)

unfoldable pub resolve {ℓ} :
    {T : Type ℓ} → Str → T → List (Source × Option T) → Provenance → T × Provenance
unfolding resolve_loop
resolve field value layers prov =
    resolve_loop field layers value (record_source field Source.default prov)

-- The three layers that `resolve_layers` gives to each field.
abbrev pub layers {ℓ} : {T : Type ℓ} → Option T → Option T → Option T → List (Source × Option T)
layers file env cli = (Source.file, file) ∷ (Source.env, env) ∷ (Source.cli, cli) ∷ []

unfoldable pub resolve_layers : PartialStatic × List Route → PartialStatic → PartialStatic → Config
resolve_layers (file, file_routes) env cli =
    let (listen, prov) =
      resolve (codes "server.listen") default_listen (layers file.listen env.listen cli.listen)
        [] in
    let (max_body_bytes, prov) =
      resolve (codes "server.max_body_bytes") default_max_body_bytes
        (layers file.max_body_bytes env.max_body_bytes cli.max_body_bytes) prov in
    let (allow_mock, prov) =
      resolve (codes "attestation.allow_mock") true
        (layers file.allow_mock env.allow_mock cli.allow_mock) prov in
    let (strict_attestation, prov) =
      resolve (codes "attestation.strict_attestation") false
        (layers file.strict_attestation env.strict_attestation cli.strict_attestation) prov in
    let (atb_ttl_secs, prov) =
      resolve (codes "attestation.atb_ttl_secs") default_atb_ttl_secs
        (layers file.atb_ttl_secs env.atb_ttl_secs cli.atb_ttl_secs) prov in
    let (atb_eviction_interval_secs, prov) =
      resolve (codes "attestation.atb_eviction_interval_secs") default_atb_eviction_interval_secs
        (layers file.atb_eviction_interval_secs env.atb_eviction_interval_secs
          cli.atb_eviction_interval_secs)
        prov in
    let (atb_max_sessions, prov) =
      resolve (codes "attestation.atb_max_sessions") default_atb_max_sessions
        (layers file.atb_max_sessions env.atb_max_sessions cli.atb_max_sessions) prov in
    let (tee_provider, prov) =
      resolve (codes "attestation.tee_provider") TeeProviderKind.mock
        (layers file.tee_provider env.tee_provider cli.tee_provider) prov in
    let (verifier, prov) =
      resolve (codes "attestation.verifier") VerifierKind.mock
        (layers file.verifier env.verifier cli.verifier) prov in
    let (verifier_endpoint, prov) =
      resolve (codes "attestation.verifier_endpoint") none
        (layers (map_some some file.verifier_endpoint) (map_some some env.verifier_endpoint)
          (map_some some cli.verifier_endpoint))
        prov in
    let (verifier_api_key, prov) =
      resolve (codes "attestation.verifier_api_key") none
        (layers (map_some some file.verifier_api_key) (map_some some env.verifier_api_key)
          (map_some some cli.verifier_api_key))
        prov in
    let (tpm, prov) =
      resolve (codes "attestation.tpm") none
        (layers (map_some some file.tpm) (map_some some env.tpm) (map_some some cli.tpm)) prov in
    let (tls, prov) =
      resolve (codes "server.tls") none
        (layers (map_some some file.tls) (map_some some env.tls) (map_some some cli.tls)) prov in
    let (rate_limit_max_requests, prov) =
      resolve (codes "rate_limit.max_requests") default_rate_limit_max_requests
        (layers file.rate_limit_max_requests env.rate_limit_max_requests
          cli.rate_limit_max_requests)
        prov in
    let (rate_limit_window_secs, prov) =
      resolve (codes "rate_limit.window_secs") default_rate_limit_window_secs
        (layers file.rate_limit_window_secs env.rate_limit_window_secs cli.rate_limit_window_secs)
        prov in
    let (docker_enabled, prov) =
      resolve (codes "discovery.docker") false
        (layers file.docker_enabled env.docker_enabled cli.docker_enabled) prov in
    let (docker_socket, prov) =
      resolve (codes "discovery.docker.socket") default_docker_socket
        (layers file.docker_socket env.docker_socket cli.docker_socket) prov in
    let (docker_poll_secs, prov) =
      resolve (codes "discovery.docker.poll_secs") default_docker_poll_secs
        (layers file.docker_poll_secs env.docker_poll_secs cli.docker_poll_secs) prov in
    let (kubernetes_enabled, prov) =
      resolve (codes "discovery.kubernetes") false
        (layers file.kubernetes_enabled env.kubernetes_enabled cli.kubernetes_enabled) prov in
    let (kubernetes_namespace, prov) =
      resolve (codes "discovery.kubernetes.namespace") none
        (layers file.kubernetes_namespace env.kubernetes_namespace cli.kubernetes_namespace) prov in
    record {
      static = record {
        server = record { listen = listen; max_body_bytes = max_body_bytes; tls = tls };
        attestation = record {
          allow_mock = allow_mock;
          strict_attestation = strict_attestation;
          atb_ttl_secs = atb_ttl_secs;
          atb_eviction_interval_secs = atb_eviction_interval_secs;
          atb_max_sessions = atb_max_sessions;
          tee_provider = tee_provider;
          verifier = verifier;
          verifier_endpoint = verifier_endpoint;
          verifier_api_key = verifier_api_key;
          tpm = tpm;
        };
        discovery = record {
          docker = record {
            enabled = docker_enabled;
            socket = docker_socket;
            poll_secs = docker_poll_secs;
          };
          kubernetes = record { enabled = kubernetes_enabled; namespace = kubernetes_namespace };
        };
        rate_limit = record {
          max_requests = rate_limit_max_requests;
          window_secs = rate_limit_window_secs;
        };
      };
      file_routes = file_routes;
      provenance = prov;
    }

-- `Config::initial_routes`
unfoldable pub initial_routes : Config → RouteTable
unfolding new
initial_routes c = new c.file_routes
