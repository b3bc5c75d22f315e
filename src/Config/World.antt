-- ===== src/Config/World.antt =====
-- What src/config.rs takes from outside: the environment, the file system, and the parsers of
-- other crates. All of it is a parameter of the model.
use archetype_proxy_server.Prelude.{ℕ, Bool, Option, List}
use archetype_proxy_server.Text.{Str}
use archetype_proxy_server.Ordered.{BTreeMap}
use archetype_proxy_server.Config.Kinds.{TeeProviderKind, VerifierKind}
use archetype_proxy_server.Config.Settings.{SocketAddr, TlsConfig}

-- The parsed file (`FileConfig` and its parts); `serde` and `toml` fill it.
pub record FileServer : Type 0 where
  pub listen : Option SocketAddr
  pub max_body_bytes : Option ℕ
  pub tls : Option TlsConfig

pub record FileTpm : Type 0 where
  pub expected_pcrs : BTreeMap Str Str
  pub pinned_ak_sec1_hex : Option Str
  pub pcr_selection : Option (List ℕ)
  pub trusted_ek_root_paths : List Str
  pub allow_unpinned_ak : Bool

pub record FileAttestation : Type 0 where
  pub allow_mock : Option Bool
  pub strict_attestation : Option Bool
  pub atb_ttl_secs : Option ℕ
  pub atb_eviction_interval_secs : Option ℕ
  pub atb_max_sessions : Option ℕ
  pub tee_provider : Option TeeProviderKind
  pub verifier : Option VerifierKind
  pub verifier_endpoint : Option Str
  pub verifier_api_key : Option Str
  pub tpm : Option FileTpm

pub record FileRateLimit : Type 0 where
  pub max_requests : Option ℕ
  pub window_secs : Option ℕ

pub record FileDiscovery : Type 0 where
  pub docker : Option Bool
  pub docker_socket : Option Str
  pub docker_poll_secs : Option ℕ
  pub kubernetes : Option Bool
  pub kubernetes_namespace : Option Str

pub record FileUpstream : Type 0 where
  pub target : Str

pub record FileRoute : Type 0 where
  pub name : Option Str
  pub host : Str
  pub path_prefix : Str
  pub upstream : Str
  pub strict_attestation : Option Bool

pub record FileConfig : Type 0 where
  pub server : FileServer
  pub attestation : FileAttestation
  pub rate_limit : FileRateLimit
  pub discovery : FileDiscovery
  pub upstream : Option FileUpstream
  pub routes : List FileRoute

-- `none` stands for the error of a call.
pub record World : Type 0 where
  -- `std::env::var(name).ok()`
  pub env_var : Str → Option Str
  -- `Path::exists`, `std::fs::read_to_string`, `std::fs::read`
  pub exists : Str → Bool
  pub read_to_string : Str → Option Str
  pub read : Str → Option (List ℕ)
  -- `toml::from_str::<FileConfig>`
  pub toml : Str → Option FileConfig
  -- `SocketAddr::from_str`
  pub socket_addr : Str → Option SocketAddr
  -- `hex::decode`
  pub hex_decode : Str → Option (List ℕ)
  -- `rustls_pemfile::certs`, collected
  pub pem_certs : List ℕ → Option (List (List ℕ))
  -- whether `X509Certificate::from_der` succeeds
  pub is_x509 : List ℕ → Bool
