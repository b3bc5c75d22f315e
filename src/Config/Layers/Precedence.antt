-- ===== src/Config/Layers/Precedence.antt =====
-- The layered merge against its specification: the highest layer that speaks wins.
use archetype_proxy_server.Prelude.{
  ◌≡◌, refl, true, false, Option, none, some, List, map_some, unwrap_or, or_option,
}
use archetype_proxy_server.Text.{Str}
use archetype_proxy_server.Config.Kinds.{TeeProviderKind, VerifierKind}
use archetype_proxy_server.Config.Route.{Route}
use archetype_proxy_server.Config.Settings.{StaticConfig, Provenance, PartialStatic}
use archetype_proxy_server.Config.Layers.{
  resolve, layers, resolve_layers, default_max_body_bytes, default_listen, default_docker_socket,
  default_docker_poll_secs, default_atb_ttl_secs, default_atb_eviction_interval_secs,
  default_atb_max_sessions, default_rate_limit_max_requests, default_rate_limit_window_secs,
}

-- Command line over environment over file over the built-in default.
abbrev pub winner {ℓ} : {T : Type ℓ} → T → Option T → Option T → Option T → T
winner value file env cli = unwrap_or (or_option cli (or_option env file)) value

-- The same for a setting that may be absent.
abbrev pub winner? {ℓ} : {T : Type ℓ} → Option T → Option T → Option T → Option T
winner? file env cli = or_option cli (or_option env file)

resolve_value {ℓ} :
    {T : Type ℓ} (field : Str) (value : T) (file env cli : Option T) (prov : Provenance)
    → (resolve field value (layers file env cli) prov).0 ≡ winner value file env cli
unfolding resolve
resolve_value field value none none none prov = refl
resolve_value field value none none (some c) prov = refl
resolve_value field value none (some e) none prov = refl
resolve_value field value none (some e) (some c) prov = refl
resolve_value field value (some f) none none prov = refl
resolve_value field value (some f) none (some c) prov = refl
resolve_value field value (some f) (some e) none prov = refl
resolve_value field value (some f) (some e) (some c) prov = refl

resolve_option {ℓ} :
    {T : Type ℓ} (field : Str) (file env cli : Option T) (prov : Provenance)
    → (resolve field none
        (layers (map_some some file) (map_some some env) (map_some some cli))
        prov).0
      ≡ winner? file env cli
unfolding resolve
resolve_option field none none none prov = refl
resolve_option field none none (some c) prov = refl
resolve_option field none (some e) none prov = refl
resolve_option field none (some e) (some c) prov = refl
resolve_option field (some f) none none prov = refl
resolve_option field (some f) none (some c) prov = refl
resolve_option field (some f) (some e) none prov = refl
resolve_option field (some f) (some e) (some c) prov = refl

-- What each setting is to be.
unfoldable pub merged : PartialStatic → PartialStatic → PartialStatic → StaticConfig
merged file env cli = record {
  server = record {
    listen = winner default_listen file.listen env.listen cli.listen;
    max_body_bytes =
        winner default_max_body_bytes file.max_body_bytes env.max_body_bytes cli.max_body_bytes;
    tls = winner? file.tls env.tls cli.tls;
  };
  attestation = record {
    allow_mock = winner true file.allow_mock env.allow_mock cli.allow_mock;
    strict_attestation =
        winner false file.strict_attestation env.strict_attestation cli.strict_attestation;
    atb_ttl_secs = winner default_atb_ttl_secs file.atb_ttl_secs env.atb_ttl_secs cli.atb_ttl_secs;
    atb_eviction_interval_secs =
        winner default_atb_eviction_interval_secs file.atb_eviction_interval_secs
          env.atb_eviction_interval_secs cli.atb_eviction_interval_secs;
    atb_max_sessions =
        winner default_atb_max_sessions file.atb_max_sessions env.atb_max_sessions
          cli.atb_max_sessions;
    tee_provider = winner TeeProviderKind.mock file.tee_provider env.tee_provider cli.tee_provider;
    verifier = winner VerifierKind.mock file.verifier env.verifier cli.verifier;
    verifier_endpoint = winner? file.verifier_endpoint env.verifier_endpoint cli.verifier_endpoint;
    verifier_api_key = winner? file.verifier_api_key env.verifier_api_key cli.verifier_api_key;
    tpm = winner? file.tpm env.tpm cli.tpm;
  };
  discovery = record {
    docker = record {
      enabled = winner false file.docker_enabled env.docker_enabled cli.docker_enabled;
      socket = winner default_docker_socket file.docker_socket env.docker_socket cli.docker_socket;
      poll_secs =
          winner default_docker_poll_secs file.docker_poll_secs env.docker_poll_secs
            cli.docker_poll_secs;
    };
    kubernetes = record {
      enabled = winner false file.kubernetes_enabled env.kubernetes_enabled cli.kubernetes_enabled;
      namespace =
          winner none file.kubernetes_namespace env.kubernetes_namespace cli.kubernetes_namespace;
    };
  };
  rate_limit = record {
    max_requests =
        winner default_rate_limit_max_requests file.rate_limit_max_requests
          env.rate_limit_max_requests cli.rate_limit_max_requests;
    window_secs =
        winner default_rate_limit_window_secs file.rate_limit_window_secs env.rate_limit_window_secs
          cli.rate_limit_window_secs;
  };
}

-- In the merged configuration each setting is the one of the command line, else of the
-- environment, else of the file, else the built-in default; the routes are those of the file.
pub resolve_layers-merged :
    (file env cli : PartialStatic) (routes : List Route)
    → let c = resolve_layers (file, routes) env cli in
      (c.static ≡ merged file env cli) × (c.file_routes ≡ routes)
unfolding resolve_layers merged
resolve_layers-merged file env cli routes = (simp resolve_option (simp resolve_value), refl)
