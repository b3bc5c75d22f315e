-- ===== src/Tests/Config.antt =====
-- Runs of src/config.rs.
pub mod Loading
use mathlib.Core.List.{Memᴰ}
use mathlib.Core.List.Memᴰ
use archetype_proxy_server.Prelude.{
  String, ℕ, ◌≡◌, ◌≢◌, ◌↔◌, ◌⊎◌, inl, refl, Bool, true, false, Option, none, some, List, [], ◌∷◌,
  All, Result, ok, err,
}
use archetype_proxy_server.Text.{Str, codes, trim_end_matches, is_slash, to_ascii_lowercase}
use archetype_proxy_server.Config.Kinds.{
  Source, TeeProviderKind, VerifierKind, AcmeChallenge, DnsProviderKind, parse_bool_token,
}
use archetype_proxy_server.Config.Kinds.Laws.{parse_bool_token-to_ascii_lowercase}
use archetype_proxy_server.Config.Settings.{
  PartialStatic, AttestationConfig, Config, TlsConfig, TlsMode, AcmeConfig, AcmeDnsConfig,
  TpmConfig, SocketAddr,
}
use archetype_proxy_server.Config.Route.{Route, RouteTable, new, select, matches, less_specific}
use archetype_proxy_server.Config.Route.Match.{matches_iff, HostFits, Covers}
use archetype_proxy_server.Config.Route.Select.{IsChosen, select-IsChosen, select-eq-none_iff}
use archetype_proxy_server.Config.Route.Override.{select-ne-file, select-ne-discovered_of_slash}
use archetype_proxy_server.Config.Layers.{resolve_layers}
use archetype_proxy_server.Config.Layers.Precedence.{merged, resolve_layers-merged}
use archetype_proxy_server.Config.Layers.Recorded.{
  get-provenance, get-provenance_tpm, sources, entry,
}
use archetype_proxy_server.Config.Dump.{line}
use archetype_proxy_server.Config.Dump.Sources.{line_from, line-tpm_default}
use archetype_proxy_server.Config.Tls.{validate}
use archetype_proxy_server.Config.Tls.Modes.{validate_iff, IsModeOf}
use archetype_proxy_server.Config.World.{World}
use archetype_proxy_server.Config.Tpm.{read_tpm_env, var}
use archetype_proxy_server.Config.Tpm.Silent.{read_tpm_env-eq-none_iff, tpm_variables}
use archetype_proxy_server.Config.Load.{silent, load, uses_tpm}
use archetype_proxy_server.Config.Load as Load
use archetype_proxy_server.Config.Load.Policy.{validate-HasPolicy_iff, load_sound, HasPolicy}
use archetype_proxy_server.Ordered.{get}
use archetype_proxy_server.Ordered.Keys.{str_ord}

abbrev route : Str → Source → Route
route prefix source = record {
  name = codes "api";
  host = codes "API.internal";
  path_prefix = prefix;
  upstream = codes "http://api:8080/";
  strict_attestation = none;
  source = source;
}

abbrev in_file : Route
in_file = route (codes "/v1") Source.file

abbrev found : Route
found = route (codes "/v1") Source.discovered

abbrev slashed : Route
slashed = route (codes "/v1/") Source.file

select-IsChosen_example :
    IsChosen (codes "api.internal") (codes "/v1/chat") (in_file ∷ found ∷ []) found
unfolding select new
select-IsChosen_example =
    select-IsChosen (in_file ∷ found ∷ []) (codes "api.internal") (codes "/v1/chat") found refl

matches_iff_example : (matches slashed (codes "api.internal") (codes "/v1/chat") ≡ true) ↔ (
    HostFits slashed.host (codes "api.internal")
    × Covers (trim_end_matches is_slash slashed.path_prefix) (codes "/v1/chat"))
matches_iff_example = matches_iff slashed (codes "api.internal") (codes "/v1/chat")

select-ne-file_example :
    select (new (in_file ∷ found ∷ [])) (codes "api.internal") (codes "/v1") ≢ some in_file
select-ne-file_example =
    select-ne-file (in_file ∷ found ∷ []) (codes "api.internal") (codes "/v1") in_file found
      (Memᴰ.tail (Memᴰ.head refl)) refl refl refl refl

select-ne-discovered_of_slash_example :
    (matches slashed (codes "api.internal") (codes "/v1")
      ≡ matches found (codes "api.internal") (codes "/v1"))
    × (select (new (slashed ∷ found ∷ [])) (codes "api.internal") (codes "/v1") ≢ some found)
select-ne-discovered_of_slash_example =
    select-ne-discovered_of_slash (slashed ∷ found ∷ []) (codes "api.internal") (codes "/v1")
      slashed found (Memᴰ.head refl) refl refl

-- Layers.
abbrev listening : ℕ → PartialStatic
listening port = record {
  listen = some (record { ip = codes "127.0.0.1"; port = port });
  max_body_bytes = none;
  tls = none;
  allow_mock = some false;
  strict_attestation = none;
  atb_ttl_secs = none;
  atb_eviction_interval_secs = none;
  atb_max_sessions = none;
  tee_provider = some TeeProviderKind.tpm;
  verifier = none;
  verifier_endpoint = none;
  verifier_api_key = none;
  tpm = none;
  rate_limit_max_requests = none;
  rate_limit_window_secs = none;
  docker_enabled = none;
  docker_socket = none;
  docker_poll_secs = none;
  kubernetes_enabled = some true;
  kubernetes_namespace = some none;
}

resolve_layers-merged_example :
    ((resolve_layers (listening 1, in_file ∷ []) (listening 2) silent).static
      ≡ merged (listening 1) (listening 2) silent)
    × ((resolve_layers (listening 1, in_file ∷ []) (listening 2) silent).file_routes ≡ in_file ∷ [])
resolve_layers-merged_example =
    resolve_layers-merged (listening 1) (listening 2) silent (in_file ∷ [])

line-tpm_default_example :
    All
      (λ (field : String).
        line
          (resolve_layers (listening 1, []) (listening 2) silent).provenance
          (codes field, codes "<set>")
        ≡ line_from Source.default (codes field) (codes "<set>"))
      ("attestation.tpm.expected_pcrs" ∷ "attestation.tpm.pinned_ak"
        ∷ "attestation.tpm.trusted_ek_roots" ∷ "attestation.tpm.allow_unpinned_ak" ∷ [])
line-tpm_default_example = line-tpm_default (listening 1) (listening 2) silent [] (codes "<set>")

-- TLS.
abbrev pub acme_block : AcmeConfig
acme_block = record {
  enabled = true;
  domains = codes "*.example.org" ∷ [];
  contact = none;
  challenge = AcmeChallenge.dns01;
  directory_url = none;
  staging = true;
  cache_dir = none;
  http01_listen = none;
  dns = record {
    provider = DnsProviderKind.manual;
    hook_command = none;
    cleanup_command = none;
    api_token = none;
    api_token_env = none;
    zone_id = none;
    propagation_secs = 30;
  };
}

abbrev pub tls_block : TlsConfig
tls_block = record { cert_path = none; key_path = none; acme = some acme_block }

validate_iff_example :
    (validate tls_block ≡ ok (TlsMode.acme acme_block))
    ↔ IsModeOf tls_block (TlsMode.acme acme_block)
validate_iff_example = validate_iff tls_block (TlsMode.acme acme_block)

-- An empty environment and no files.
abbrev pub bare : World
bare = record {
  env_var = λ name. none;
  exists = λ path. false;
  read_to_string = λ path. none;
  read = λ path. none;
  toml = λ text. none;
  socket_addr = λ text. none;
  hex_decode = λ text. none;
  pem_certs = λ bytes. none;
  is_x509 = λ der. false;
}

abbrev pub bare_config : Config
bare_config = resolve_layers (silent, []) silent silent
