-- ===== src/Tests/Startup.antt =====
-- A run of src/main.rs: a release build with a file that names hardware attestation and a pair of
-- PEM files.
use archetype_proxy_server.Prelude.{◌≡◌, ◌≢◌, refl, true, false, none, some, [], ◌∷◌}
use archetype_proxy_server.Text.{codes}
use archetype_proxy_server.Config.Kinds.{TeeProviderKind, VerifierKind}
use archetype_proxy_server.Config.Settings.{Config, PartialStatic}
use archetype_proxy_server.Config.World.{World, FileConfig}
use archetype_proxy_server.Config.Layers.{resolve_layers, resolve}
use archetype_proxy_server.Config.Load.{silent, load, read_file, read_env, validate}
use archetype_proxy_server.Config.Tls
use archetype_proxy_server.Attestation.{
  insecure_dev_env_set, secure, sev_snp_provider, mock_provider, maa_verifier, mock_verifier,
  uses_mock, startup_attestation_decision, build_tee_provider, build_verifier,
}
use archetype_proxy_server.Discovery.Manager as Manager
use archetype_proxy_server.Cli as Cli
use archetype_proxy_server.Cli.{Args, overrides, is_dump}
use archetype_proxy_server.Tls.{
  static_cert, config_with_resolver, load_certified_key, into_resolver, server_config,
}
use archetype_proxy_server.Startup.{
  Environment, tls_static, Server, main, start, listen, tls_listener, build_providers, rate_limit,
  warn_tpm_unpinned_ak,
}
use archetype_proxy_server.Startup.Admitted.{IsAdmitted, main-IsAdmitted, main-ne-mock}
use archetype_proxy_server.Tests.Attestation.{all_features}
use archetype_proxy_server.Tests.Config.{bare}
use archetype_proxy_server.Tests.Cli.{args}
use archetype_proxy_server.Tests.Acme.{Key, Disk, files, pem_files, turn}

abbrev file : FileConfig
file = record {
  server = record {
    listen = some (record { ip = codes "0.0.0.0"; port = 443 });
    max_body_bytes = none;
    tls =
        some
          (record { cert_path = some (codes "cert"); key_path = some (codes "key"); acme = none });
  };
  attestation = record {
    allow_mock = some false;
    strict_attestation = none;
    atb_ttl_secs = none;
    atb_eviction_interval_secs = none;
    atb_max_sessions = none;
    tee_provider = some TeeProviderKind.sev_snp;
    verifier = some VerifierKind.maa;
    verifier_endpoint = some (codes "https://maa.example.org");
    verifier_api_key = none;
    tpm = none;
  };
  rate_limit = record { max_requests = none; window_secs = none };
  discovery = record {
    docker = none;
    docker_socket = none;
    docker_poll_secs = none;
    kubernetes = none;
    kubernetes_namespace = none;
  };
  upstream = none;
  routes = [];
}

abbrev with_file : World
with_file = record bare {
  exists = λ path. true;
  read_to_string = λ path. some [];
  toml = λ text. some file;
}

abbrev environment : Environment Key Disk
environment = record {
  world = with_file;
  features = all_features;
  is_release = true;
  rustls = pem_files;
  files = files;
  disk = [];
  turn = turn;
}

-- The configuration that is loaded.
abbrev file_layer : PartialStatic
file_layer = record silent {
  listen = file.server.listen;
  tls = file.server.tls;
  allow_mock = some false;
  tee_provider = some TeeProviderKind.sev_snp;
  verifier = some VerifierKind.maa;
  verifier_endpoint = file.attestation.verifier_endpoint;
}

abbrev settings : Config
settings = resolve_layers (file_layer, []) silent (overrides args)

abbrev server : Server Key Disk
server = record {
  settings = settings;
  mode = secure;
  unpinned_ak_warned = false;
  provider = sev_snp_provider;
  quote_verifier = maa_verifier (codes "https://maa.example.org");
  routes = Manager.new [];
  providers = build_providers settings.static.discovery;
  window = rate_limit settings.static.rate_limit;
  listener =
      tls_static (record { ip = codes "0.0.0.0"; port = 443 })
        (config_with_resolver
          (static_cert (record { cert = codes "cert" ∷ []; signing_key = codes "key" })) false);
}

main-IsAdmitted_example : IsAdmitted environment args server
unfolding main load read_file read_env validate resolve_layers resolve overrides is_dump
    Cli.config_path start insecure_dev_env_set startup_attestation_decision uses_mock
    build_tee_provider build_verifier listen Tls.validate tls_listener server_config into_resolver
    load_certified_key warn_tpm_unpinned_ak
main-IsAdmitted_example = main-IsAdmitted environment args server refl

main-ne-mock_example :
    (secure ≡ secure)
    × (sev_snp_provider ≢ mock_provider)
    × (maa_verifier (codes "https://maa.example.org") ≢ mock_verifier)
unfolding main load read_file read_env validate resolve_layers resolve overrides is_dump
    Cli.config_path start insecure_dev_env_set startup_attestation_decision uses_mock
    build_tee_provider build_verifier listen Tls.validate tls_listener server_config into_resolver
    load_certified_key warn_tpm_unpinned_ak
main-ne-mock_example = main-ne-mock environment args server refl refl refl
