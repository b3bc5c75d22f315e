-- ===== src/Config/Load.antt =====
-- `Config::load` of src/config.rs: the file, the environment, the merge, and the cross-field check.
pub mod Policy
use archetype_proxy_server.Prelude.{
  ℕ, zero, suc, ◌+◌, Bool, true, false, ◌&&◌, ◌||◌, not, Option, none, some, List, [], ◌∷◌, ◌++◌,
  Result, ok, err, ok_or, map_ok, ◌>>=◌, ◌>>◌, ensure, is_some, is_some_and, is_empty, map_some,
  unwrap_or, or_option, if◌then◌else◌,
}
use archetype_proxy_server.Text.{Str, codes, decimal, parse_uint, u64_bound}
use archetype_proxy_server.Config.Kinds.{Source, parse_bool_token, TeeProviderKind, VerifierKind}
use archetype_proxy_server.Config.Kinds.TeeProvider
use archetype_proxy_server.Config.Kinds.Verifier
use archetype_proxy_server.Config.Route.{Route}
use archetype_proxy_server.Config.Settings.{
  TpmConfig, PartialStatic, Config, AttestationConfig, EnvReason, not_parsed, not_a_boolean,
  ConfigError, read, parse, env, validation, empty_policy, untrusted_ak,
}
use archetype_proxy_server.Config.World.{World, FileConfig, FileRoute, FileUpstream, FileTpm}
use archetype_proxy_server.Config.Tpm.{resolve_file_tpm, read_tpm_env, trusted_ek_roots_der, var}
use archetype_proxy_server.Config.Layers.{namespace_layer, resolve_layers}

-- `PartialStatic::default`
abbrev pub silent : PartialStatic
silent = record {
  listen = none;
  max_body_bytes = none;
  tls = none;
  allow_mock = none;
  strict_attestation = none;
  atb_ttl_secs = none;
  atb_eviction_interval_secs = none;
  atb_max_sessions = none;
  tee_provider = none;
  verifier = none;
  verifier_endpoint = none;
  verifier_api_key = none;
  tpm = none;
  rate_limit_max_requests = none;
  rate_limit_window_secs = none;
  docker_enabled = none;
  docker_socket = none;
  docker_poll_secs = none;
  kubernetes_enabled = none;
  kubernetes_namespace = none;
}

-- The file routes, numbered from `i`.
unfoldable pub routes_from : ℕ → List FileRoute → List Route
unfolding decimal
routes_from i [] = []
routes_from i (r ∷ rs) =
    record {
      name = unwrap_or r.name (codes "route-" ++ decimal i);
      host = r.host;
      path_prefix = r.path_prefix;
      upstream = r.upstream;
      strict_attestation = r.strict_attestation;
      source = Source.file;
    }
    ∷ routes_from (suc i) rs

-- `[upstream] target` becomes a catch-all route behind the others.
abbrev upstream_route : Option FileUpstream → List Route
upstream_route none = []
upstream_route (some up) =
    record {
      name = codes "upstream-default";
      host = [];
      path_prefix = [];
      upstream = up.target;
      strict_attestation = none;
      source = Source.file;
    }
    ∷ []

unfoldable pub file_routes : FileConfig → List Route
unfolding routes_from
file_routes fc = routes_from 0 fc.routes ++ upstream_route fc.upstream

abbrev file_partial : FileConfig → Option TpmConfig → PartialStatic
file_partial fc tpm = record {
  listen = fc.server.listen;
  max_body_bytes = fc.server.max_body_bytes;
  tls = fc.server.tls;
  allow_mock = fc.attestation.allow_mock;
  strict_attestation = fc.attestation.strict_attestation;
  atb_ttl_secs = fc.attestation.atb_ttl_secs;
  atb_eviction_interval_secs = fc.attestation.atb_eviction_interval_secs;
  atb_max_sessions = fc.attestation.atb_max_sessions;
  tee_provider = fc.attestation.tee_provider;
  verifier = fc.attestation.verifier;
  verifier_endpoint = fc.attestation.verifier_endpoint;
  verifier_api_key = fc.attestation.verifier_api_key;
  tpm = tpm;
  rate_limit_max_requests = fc.rate_limit.max_requests;
  rate_limit_window_secs = fc.rate_limit.window_secs;
  docker_enabled = fc.discovery.docker;
  docker_socket = fc.discovery.docker_socket;
  docker_poll_secs = fc.discovery.docker_poll_secs;
  kubernetes_enabled = fc.discovery.kubernetes;
  kubernetes_namespace = namespace_layer fc.discovery.kubernetes_namespace;
}

-- `VerifierKind::Tpm` or `TeeProviderKind::Tpm` is chosen.
abbrev is_tpm_verifier : VerifierKind → Bool
is_tpm_verifier VerifierKind.tpm = true
is_tpm_verifier _ = false

abbrev is_tpm_provider : TeeProviderKind → Bool
is_tpm_provider TeeProviderKind.tpm = true
is_tpm_provider _ = false

abbrev pub uses_tpm : AttestationConfig → Bool
uses_tpm att = is_tpm_verifier att.verifier || is_tpm_provider att.tee_provider

-- `std::env::var(ENV_CONFIG_PATH)` below an explicit path
module _ (w : World) where
  open w use {env_var, exists, read_to_string, toml, socket_addr}

  unfoldable pub config_path : Option Str → Str
  config_path explicit =
      unwrap_or (or_option explicit (env_var (codes "ARCHETYPE_PROXY_CONFIG")))
        (codes "./archetype-proxy.toml")

  abbrev tpm_of_file : Option FileTpm → Result ConfigError (Option TpmConfig)
  tpm_of_file none = ok none
  tpm_of_file (some t) = map_ok some (resolve_file_tpm w t)

  read_existing : Str → Result ConfigError (PartialStatic × List Route)
  unfolding namespace_layer resolve_file_tpm file_routes
  read_existing path = do
    raw ← ok_or (read_to_string path) (read path)
    fc ← ok_or (toml raw) (parse path)
    tpm ← tpm_of_file fc.attestation.tpm
    ok (file_partial fc tpm, file_routes fc)

  unfoldable pub read_file : Str → Result ConfigError (PartialStatic × List Route)
  unfolding read_existing
  read_file path = if not (exists path) then ok (silent, []) else read_existing path

  -- `parse` and `parse_bool` of `read_env`
  abbrev parse_var {ℓ} : {T : Type ℓ} → (Str → Option T) → Str → Result ConfigError (Option T)
  parse_var from_str name = elim (var w name) [
    | none ↦ ok none
    | some v ↦ map_ok some (ok_or (from_str v) (env name v not_parsed))
  ]

  abbrev parse_bool : Str → Result ConfigError (Option Bool)
  parse_bool name = elim (var w name) [
    | none ↦ ok none
    | some v ↦ map_ok some (ok_or (parse_bool_token v) (env name v not_a_boolean))
  ]

  abbrev parse_number : Str → Result ConfigError (Option ℕ)
  parse_number name = parse_var (parse_uint u64_bound) name

  abbrev ok_value {ℓ} : {T : Type ℓ} → Result Str T → Option T
  ok_value (ok k) = some k
  ok_value (err e) = none

  unfoldable pub read_env : Result ConfigError PartialStatic
  unfolding parse_uint parse_bool_token TeeProvider.from_str Verifier.from_str read_tpm_env
      namespace_layer
  read_env = do
    listen ← parse_var socket_addr (codes "ARCHETYPE_PROXY_LISTEN")
    max_body_bytes ← parse_number (codes "ARCHETYPE_PROXY_MAX_BODY_BYTES")
    allow_mock ← parse_bool (codes "ARCHETYPE_PROXY_ALLOW_MOCK")
    strict_attestation ← parse_bool (codes "ARCHETYPE_PROXY_STRICT_ATTESTATION")
    atb_ttl_secs ← parse_number (codes "ARCHETYPE_PROXY_ATB_TTL_SECS")
    atb_eviction_interval_secs ← parse_number (codes "ARCHETYPE_PROXY_ATB_EVICTION_INTERVAL_SECS")
    atb_max_sessions ← parse_number (codes "ARCHETYPE_PROXY_ATB_MAX_SESSIONS")
    tee_provider ←
        parse_var (λ s. ok_value (TeeProvider.from_str s)) (codes "ARCHETYPE_PROXY_TEE_PROVIDER")
    verifier ← parse_var (λ s. ok_value (Verifier.from_str s)) (codes "ARCHETYPE_PROXY_VERIFIER")
    tpm ← read_tpm_env w
    rate_limit_max_requests ← parse_number (codes "ARCHETYPE_PROXY_RATE_LIMIT_MAX_REQUESTS")
    rate_limit_window_secs ← parse_number (codes "ARCHETYPE_PROXY_RATE_LIMIT_WINDOW_SECS")
    docker_enabled ← parse_bool (codes "ARCHETYPE_PROXY_DOCKER")
    docker_poll_secs ← parse_number (codes "ARCHETYPE_PROXY_DOCKER_POLL_SECS")
    kubernetes_enabled ← parse_bool (codes "ARCHETYPE_PROXY_KUBERNETES")
    ok (record {
      listen = listen;
      max_body_bytes = max_body_bytes;
      tls = none;
      allow_mock = allow_mock;
      strict_attestation = strict_attestation;
      atb_ttl_secs = atb_ttl_secs;
      atb_eviction_interval_secs = atb_eviction_interval_secs;
      atb_max_sessions = atb_max_sessions;
      tee_provider = tee_provider;
      verifier = verifier;
      verifier_endpoint = var w (codes "ARCHETYPE_PROXY_VERIFIER_ENDPOINT");
      verifier_api_key = var w (codes "ARCHETYPE_PROXY_VERIFIER_API_KEY");
      tpm = tpm;
      rate_limit_max_requests = rate_limit_max_requests;
      rate_limit_window_secs = rate_limit_window_secs;
      docker_enabled = docker_enabled;
      docker_socket = var w (codes "ARCHETYPE_PROXY_DOCKER_SOCKET");
      docker_poll_secs = docker_poll_secs;
      kubernetes_enabled = kubernetes_enabled;
      kubernetes_namespace =
          namespace_layer (env_var (codes "ARCHETYPE_PROXY_KUBERNETES_NAMESPACE"));
    })

  -- The check of a configuration that uses a TPM; the roots are read only to see that they parse.
  validate_tpm : AttestationConfig → Option TpmConfig → Result ConfigError (Unit {0})
  validate_tpm att none = err (validation (empty_policy att.verifier att.tee_provider))
  validate_tpm att (some t) = do
    ensure (not (is_empty t.expected_pcrs))
        (validation (empty_policy att.verifier att.tee_provider))
    let has_pin = is_some t.pinned_ak_sec1
    let has_roots = not (is_empty t.trusted_ek_root_paths)
    ensure (not (not has_pin && not has_roots && not t.allow_unpinned_ak))
        (validation (untrusted_ak att.verifier att.tee_provider))
    if has_roots then map_ok (λ _. tt) (trusted_ek_roots_der w t) else ok tt

  -- `Config::validate`
  unfoldable pub validate : Config → Result ConfigError (Unit {0})
  unfolding validate_tpm
  validate c =
      let att = c.static.attestation in if uses_tpm att then validate_tpm att att.tpm else ok tt

  -- `Config::load`
  unfoldable pub load : PartialStatic → Option Str → Result ConfigError Config
  unfolding config_path
  load cli explicit = do
    file ← read_file (config_path explicit)
    env_layer ← read_env
    let cfg = resolve_layers file env_layer cli
    validate cfg
    ok cfg
