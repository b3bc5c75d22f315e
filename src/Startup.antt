-- ===== src/Startup.antt =====
-- src/main.rs, from the arguments to the listener, with `build_providers` of src/discovery/mod.rs:
-- what the process serves, or why it exits. Logging is left out; the servers, the tasks that are
-- spawned and the SDK's builder are given by what they are started with.
pub mod Acme
pub mod Serving
pub mod Admitted
use archetype_proxy_server.Prelude.{
  ℕ, Bool, true, false, ◌&&◌, Option, none, some, List, [], ◌∷◌, ◌++◌, Result, ok, err, map_err,
  ◌>>=◌, ◌>>◌, is_some_and, ltb, if◌then◌else◌,
}
use archetype_proxy_server.Text.{Str, codes, str_eq}
use archetype_proxy_server.Config.Kinds.{VerifierKind}
use archetype_proxy_server.Config.Settings.{
  SocketAddr, TlsMode, TpmConfig, AttestationConfig, RateLimitConfig, DiscoveryConfig, Config,
  TlsConfig,
}
use archetype_proxy_server.Config.World.{World}
use archetype_proxy_server.Config.Load.{load}
use archetype_proxy_server.Config.Settings.{ConfigError}
use archetype_proxy_server.Config.Tls.{TlsReason, validate}
use archetype_proxy_server.Attestation.{
  AttestationMode, FatalError, Features, TeeProviderObject, VerifierObject, insecure_dev_env_set,
  startup_attestation_decision, build_tee_provider, build_verifier,
}
use archetype_proxy_server.Discovery.Docker
use archetype_proxy_server.Discovery.Docker.{DockerProvider}
use archetype_proxy_server.Discovery.Manager
use archetype_proxy_server.Discovery.Manager.{RouteManager}
use archetype_proxy_server.Cli.{Args, config_path, is_dump, overrides}
use archetype_proxy_server.Tls
use archetype_proxy_server.Tls.{Rustls, TlsError, static_files, server_config}
use archetype_proxy_server.Acme.{AcmeError}
use archetype_proxy_server.Acme.Cache.{Files}
use archetype_proxy_server.Acme.Manager.Renewal.{Turn}
use archetype_proxy_server.Startup.Acme.{AcmeListener, SetupError, setup_acme}

-- The calls that end with `exit(1)`.
pub data StartError : Type 0 where
  config : ConfigError → StartError
  guard : FatalError → StartError
  tee_provider : FatalError → StartError
  verifier : FatalError → StartError
  invalid_tls : TlsReason → StartError
  certificate : TlsError → StartError
  acme : SetupError → StartError

-- What `main` takes from outside; `S` are the signing keys and `D` the states of the disk.
pub record Environment (S D : Type 0) : Type 1 where
  pub world : World
  pub features : Features
  -- `is_release_build`
  pub is_release : Bool
  pub rustls : Rustls S
  pub files : Files D
  pub disk : D
  -- what an order meets during the startup
  pub turn : Turn S

pub data DiscoveryProvider : Type 0 where
  docker : DockerProvider → DiscoveryProvider
  kubernetes : (namespace : Option Str) → DiscoveryProvider

unfoldable pub build_providers : DiscoveryConfig → List DiscoveryProvider
unfolding Docker.new
build_providers cfg =
    (if cfg.docker.enabled
      then docker (Docker.new cfg.docker.socket cfg.docker.poll_secs) ∷ []
      else [])
    ++ (if cfg.kubernetes.enabled then kubernetes cfg.kubernetes.namespace ∷ [] else [])

abbrev is_tpm : VerifierKind → Bool
is_tpm VerifierKind.tpm = true
is_tpm _ = false

-- Whether `warn_tpm_unpinned_ak` warns.
unfoldable pub warn_tpm_unpinned_ak : AttestationConfig → Bool
warn_tpm_unpinned_ak cfg =
    is_tpm cfg.verifier && is_some_and (λ (t : TpmConfig). t.allow_unpinned_ak) cfg.tpm

-- The window of the rate limit, if there is one: requests and seconds.
unfoldable pub rate_limit : RateLimitConfig → Option (ℕ × ℕ)
rate_limit rl = if ltb 0 rl.max_requests then some (rl.max_requests, rl.window_secs) else none

pub data Listener (S D : Type 0) : Type 0 where
  plaintext : SocketAddr → Listener S D
  tls_static : SocketAddr → Tls.ServerConfig S → Listener S D
  tls_acme : SocketAddr → AcmeListener S D → Listener S D

-- What is served.
pub record Server (S D : Type 0) : Type 0 where
  pub settings : Config
  pub mode : AttestationMode
  pub unpinned_ak_warned : Bool
  pub provider : TeeProviderObject
  pub quote_verifier : VerifierObject
  pub routes : RouteManager
  pub providers : List DiscoveryProvider
  pub window : Option (ℕ × ℕ)
  pub listener : Listener S D

pub data Outcome (S D : Type 0) : Type 0 where
  exited : StartError → Outcome S D
  dumped : Config → Outcome S D
  served : Server S D → Outcome S D

module _ {S D : Type 0} (env : Environment S D) where
  -- `match mode`
  unfoldable pub tls_listener : SocketAddr → TlsMode → Result StartError (Listener S D)
  unfolding server_config setup_acme
  tls_listener addr (TlsMode.static_files cert_path key_path) = do
    c ← map_err certificate (server_config env.rustls (static_files cert_path key_path))
    ok (tls_static addr c)
  tls_listener addr (TlsMode.acme cfg) = do
    running ← map_err acme (setup_acme env.files env.turn env.world.env_var cfg addr env.disk)
    ok (tls_acme addr running)

  unfoldable pub listen : SocketAddr → Option TlsConfig → Result StartError (Listener S D)
  unfolding tls_listener validate
  listen addr none = ok (plaintext addr)
  listen addr (some tls) = do mode ← map_err invalid_tls (validate tls); tls_listener addr mode

  -- From the attestation guard on.
  unfoldable pub start : Config → Result StartError (Server S D)
  unfolding listen startup_attestation_decision build_tee_provider build_verifier build_providers
      insecure_dev_env_set rate_limit warn_tpm_unpinned_ak Manager.new
  start cfg = do
    let att = cfg.static.attestation
    mode ←
        map_err guard
          (startup_attestation_decision env.is_release att (insecure_dev_env_set env.world))
    provider ← map_err tee_provider (build_tee_provider env.features att)
    quote_verifier ← map_err verifier (build_verifier env.world env.features att)
    listener ← listen cfg.static.server.listen cfg.static.server.tls
    ok (record {
      settings = cfg;
      mode = mode;
      unpinned_ak_warned = warn_tpm_unpinned_ak att;
      provider = provider;
      quote_verifier = quote_verifier;
      routes = Manager.new cfg.file_routes;
      providers = build_providers cfg.static.discovery;
      window = rate_limit cfg.static.rate_limit;
      listener = listener;
    })

  abbrev started : Result StartError (Server S D) → Outcome S D
  started (ok server) = served server
  started (err e) = exited e

  abbrev loaded : Args → Result ConfigError Config → Outcome S D
  loaded args (err e) = exited (config e)
  loaded args (ok cfg) = if is_dump args then dumped cfg else started (start cfg)

  unfoldable pub main : Args → Outcome S D
  unfolding start load config_path overrides is_dump
  main args = loaded args (load env.world (overrides args) (config_path args))
