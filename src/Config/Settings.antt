-- ===== src/Config/Settings.antt =====
-- The records of src/config.rs: TLS and ACME settings, the TPM policy, the resolved static
-- configuration, one layer of overrides, the parsed file, and the errors. A message that is built
-- by `format!` is kept as the case that it reports with the values that it quotes; the text of a
-- foreign error is dropped.
use archetype_proxy_server.Prelude.{ℕ, Bool, Option, List}
use archetype_proxy_server.Text.{Str}
use archetype_proxy_server.Ordered.{BTreeMap}
use archetype_proxy_server.Config.Kinds.{
  Source, TeeProviderKind, VerifierKind, AcmeChallenge, DnsProviderKind,
}
use archetype_proxy_server.Config.Route.{Route}

-- `std::net::SocketAddr`
pub record SocketAddr : Type 0 where
  pub ip : Str
  pub port : ℕ

pub record AcmeDnsConfig : Type 0 where
  pub provider : DnsProviderKind
  pub hook_command : Option Str
  pub cleanup_command : Option Str
  pub api_token : Option Str
  pub api_token_env : Option Str
  pub zone_id : Option Str
  pub propagation_secs : ℕ

pub record AcmeConfig : Type 0 where
  pub enabled : Bool
  pub domains : List Str
  pub contact : Option Str
  pub challenge : AcmeChallenge
  pub directory_url : Option Str
  pub staging : Bool
  pub cache_dir : Option Str
  pub http01_listen : Option SocketAddr
  pub dns : AcmeDnsConfig

pub record TlsConfig : Type 0 where
  pub cert_path : Option Str
  pub key_path : Option Str
  pub acme : Option AcmeConfig

pub data TlsMode : Type 0 where
  static_files : (cert_path key_path : Str) → TlsMode
  acme : AcmeConfig → TlsMode

pub record TpmConfig : Type 0 where
  pub expected_pcrs : BTreeMap ℕ (List ℕ)
  pub pinned_ak_sec1 : Option (List ℕ)
  pub pcr_selection : Option (List ℕ)
  pub trusted_ek_root_paths : List Str
  pub allow_unpinned_ak : Bool

pub record ServerConfig : Type 0 where
  pub listen : SocketAddr
  pub max_body_bytes : ℕ
  pub tls : Option TlsConfig

pub record AttestationConfig : Type 0 where
  pub allow_mock : Bool
  pub strict_attestation : Bool
  pub atb_ttl_secs : ℕ
  pub atb_eviction_interval_secs : ℕ
  pub atb_max_sessions : ℕ
  pub tee_provider : TeeProviderKind
  pub verifier : VerifierKind
  pub verifier_endpoint : Option Str
  pub verifier_api_key : Option Str
  pub tpm : Option TpmConfig

pub record RateLimitConfig : Type 0 where
  pub max_requests : ℕ
  pub window_secs : ℕ

pub record DockerDiscoveryConfig : Type 0 where
  pub enabled : Bool
  pub socket : Str
  pub poll_secs : ℕ

pub record KubernetesDiscoveryConfig : Type 0 where
  pub enabled : Bool
  pub namespace : Option Str

pub record DiscoveryConfig : Type 0 where
  pub docker : DockerDiscoveryConfig
  pub kubernetes : KubernetesDiscoveryConfig

pub record StaticConfig : Type 0 where
  pub server : ServerConfig
  pub attestation : AttestationConfig
  pub discovery : DiscoveryConfig
  pub rate_limit : RateLimitConfig

-- `Provenance`: the path of a field, and the layer that won.
abbrev pub Provenance : Type 0
Provenance = BTreeMap Str Source

pub record Config : Type 0 where
  pub static : StaticConfig
  pub file_routes : List Route
  pub provenance : Provenance

pub record PartialStatic : Type 0 where
  pub listen : Option SocketAddr
  pub max_body_bytes : Option ℕ
  pub tls : Option TlsConfig
  pub allow_mock : Option Bool
  pub strict_attestation : Option Bool
  pub atb_ttl_secs : Option ℕ
  pub atb_eviction_interval_secs : Option ℕ
  pub atb_max_sessions : Option ℕ
  pub tee_provider : Option TeeProviderKind
  pub verifier : Option VerifierKind
  pub verifier_endpoint : Option Str
  pub verifier_api_key : Option Str
  pub tpm : Option TpmConfig
  pub rate_limit_max_requests : Option ℕ
  pub rate_limit_window_secs : Option ℕ
  pub docker_enabled : Option Bool
  pub docker_socket : Option Str
  pub docker_poll_secs : Option ℕ
  pub kubernetes_enabled : Option Bool
  pub kubernetes_namespace : Option (Option Str)

pub data EnvReason : Type 0 where
  not_parsed : EnvReason
  not_a_boolean : EnvReason
  not_a_pair : EnvReason
  invalid_pcr_index : EnvReason
  expected_hex : EnvReason

pub data ValidationError : Type 0 where
  empty_policy : VerifierKind → TeeProviderKind → ValidationError
  untrusted_ak : VerifierKind → TeeProviderKind → ValidationError
  root_pem : (path : Str) → ValidationError
  root_without_certificate : (path : Str) → ValidationError
  root_not_x509 : (path : Str) → ValidationError

pub data ConfigError : Type 0 where
  read : (path : Str) → ConfigError
  parse : (path : Str) → ConfigError
  env : (var value : Str) → EnvReason → ConfigError
  validation : ValidationError → ConfigError
