-- ===== src/Config/Dump.antt =====
-- `Config::dump` of src/config.rs: the text that shows each setting with the layer that set it.
-- `Display` for addresses and `Debug` for texts are the standard library's, and given.
pub mod Sources
use archetype_proxy_server.Prelude.{
  ℕ, zero, suc, Bool, true, false, Option, none, some, List, [], ◌∷◌, ◌++◌, ◌-◌, Result, ok, err,
  map, map_some, unwrap_or, is_some, is_some_and, length,
}
use archetype_proxy_server.Text.{Str, codes, join, decimal}
use archetype_proxy_server.Ordered.{get, keys}
use archetype_proxy_server.Ordered.Keys.{str_ord}
use archetype_proxy_server.Config.Kinds.{AcmeChallenge, Source, source_name, default}
use archetype_proxy_server.Config.Kinds.TeeProvider
use archetype_proxy_server.Config.Kinds.Verifier
use archetype_proxy_server.Config.Kinds.Challenge
use archetype_proxy_server.Config.Route.{Route}
use archetype_proxy_server.Config.Settings.{
  SocketAddr, AcmeConfig, TlsConfig, TlsMode, TpmConfig, Config, Provenance, StaticConfig,
}
use archetype_proxy_server.Config.Tls.{
  TlsReason, both_sources, no_source, key_path_missing, cert_path_missing, no_domains,
  wildcard_without_dns01, unreachable, validate,
}

-- `Display` of a socket address, and `Debug` of a text and of a list of texts.
pub record Shows : Type 0 where
  pub addr : SocketAddr → Str
  pub debug : Str → Str
  pub debug_list : List Str → Str

-- `Display for bool`
abbrev pub show_bool : Bool → Str
show_bool true = codes "true"
show_bool false = codes "false"

abbrev pub or_none : Option Str → Str
or_none o = unwrap_or o (codes "<none>")

abbrev spaces : ℕ → Str
spaces zero = []
spaces (suc n) = b' ' ∷ spaces n

-- `{s:<width}`
unfoldable pub pad : ℕ → Str → Str
pad width s = s ++ spaces (width - length s)

unfoldable pub expected_pcrs_text : TpmConfig → Str
unfolding join decimal
expected_pcrs_text t =
    decimal (length t.expected_pcrs)
    ++ codes " PCR(s) ["
    ++ join (codes ",") (map decimal (keys t.expected_pcrs))
    ++ codes "]"

abbrev set_or_none : Bool → Str
set_or_none true = codes "<set>"
set_or_none false = codes "<none>"

-- The messages of `TlsConfig::validate`.
unfoldable pub tls_message : TlsReason → Str
unfolding Challenge.as_str
tls_message both_sources =
    codes
      "[server.tls]: static cert_path/key_path and [server.tls.acme] enabled=true are mutually exclusive — configure exactly one cert source"
tls_message no_source =
    codes
      "[server.tls] is present but configures no cert source: set cert_path+key_path OR [server.tls.acme] enabled=true"
tls_message key_path_missing = codes "[server.tls]: cert_path is set but key_path is missing"
tls_message cert_path_missing = codes "[server.tls]: key_path is set but cert_path is missing"
tls_message no_domains = codes "[server.tls.acme]: enabled=true but `domains` is empty"
tls_message (wildcard_without_dns01 challenge) =
    codes "[server.tls.acme]: wildcard domain requires challenge=\"dns-01\" (got challenge=\""
    ++ Challenge.as_str challenge
    ++ codes "\")"
tls_message unreachable = []

-- The source that a line shows.
unfoldable pub shown_source : Provenance → Str → Source
unfolding get
shown_source p field = unwrap_or (get field p) default

-- The closure `line`.
unfoldable pub line : Provenance → Str × Str → Str
unfolding pad shown_source source_name
line p (field, value) =
    codes "  "
    ++ pad 28 field
    ++ codes " = "
    ++ pad 30 value
    ++ codes " ["
    ++ source_name (shown_source p field)
    ++ codes "]\n"

module _ (show : Shows) where
  unfoldable pub tls_text : Result TlsReason TlsMode → Str
  unfolding tls_message
  tls_text (ok (TlsMode.static_files cert_path key_path)) =
      codes "static cert=" ++ cert_path ++ codes " key=" ++ key_path
  tls_text (ok (TlsMode.acme a)) =
      codes "acme challenge="
      ++ Challenge.as_str a.challenge
      ++ codes " domains="
      ++ show.debug_list a.domains
      ++ codes " staging="
      ++ show_bool a.staging
  tls_text (err e) = codes "<invalid: " ++ tls_message e ++ codes ">"

  -- The fields, in order, with the text of their values.
  unfoldable pub dump_fields : StaticConfig → List (Str × Str)
  unfolding decimal tls_text validate expected_pcrs_text TeeProvider.as_str Verifier.as_str
  dump_fields s =
      (codes "server.listen", show.addr s.server.listen)
      ∷ (codes "server.max_body_bytes", decimal s.server.max_body_bytes)
      ∷ (codes "attestation.allow_mock", show_bool s.attestation.allow_mock)
      ∷ (codes "attestation.strict_attestation", show_bool s.attestation.strict_attestation)
      ∷ (codes "attestation.atb_ttl_secs", decimal s.attestation.atb_ttl_secs)
      ∷ (
        codes "attestation.atb_eviction_interval_secs",
        decimal s.attestation.atb_eviction_interval_secs,
      )
      ∷ (codes "attestation.atb_max_sessions", decimal s.attestation.atb_max_sessions)
      ∷ (codes "attestation.tee_provider", TeeProvider.as_str s.attestation.tee_provider)
      ∷ (codes "attestation.verifier", Verifier.as_str s.attestation.verifier)
      ∷ (codes "attestation.verifier_endpoint", or_none s.attestation.verifier_endpoint)
      ∷ (
        codes "attestation.tpm.expected_pcrs",
        or_none (map_some expected_pcrs_text s.attestation.tpm),
      )
      ∷ (
        codes "attestation.tpm.pinned_ak",
        or_none (
            map_some (λ (t : TpmConfig). set_or_none (is_some t.pinned_ak_sec1)) s.attestation.tpm),
      )
      ∷ (
        codes "attestation.tpm.trusted_ek_roots",
        or_none (
            map_some (λ (t : TpmConfig). decimal (length t.trusted_ek_root_paths))
              s.attestation.tpm),
      )
      ∷ (
        codes "attestation.tpm.allow_unpinned_ak",
        show_bool (is_some_and (λ (t : TpmConfig). t.allow_unpinned_ak) s.attestation.tpm),
      )
      ∷ (codes "server.tls", or_none (map_some (λ t. tls_text (validate t)) s.server.tls))
      ∷ (codes "rate_limit.max_requests", decimal s.rate_limit.max_requests)
      ∷ (codes "rate_limit.window_secs", decimal s.rate_limit.window_secs)
      ∷ (codes "discovery.docker", show_bool s.discovery.docker.enabled)
      ∷ (codes "discovery.docker.socket", s.discovery.docker.socket)
      ∷ (codes "discovery.docker.poll_secs", decimal s.discovery.docker.poll_secs)
      ∷ (codes "discovery.kubernetes", show_bool s.discovery.kubernetes.enabled)
      ∷ (
        codes "discovery.kubernetes.namespace",
        unwrap_or s.discovery.kubernetes.namespace (codes "<all>"),
      )
      ∷ []

  unfoldable pub route_line : Route → Str
  unfolding source_name
  route_line r =
      codes "  - "
      ++ r.name
      ++ codes " host="
      ++ show.debug r.host
      ++ codes " prefix="
      ++ show.debug r.path_prefix
      ++ codes " -> "
      ++ r.upstream
      ++ codes " ["
      ++ source_name r.source
      ++ codes "]\n"

  abbrev concat : List Str → Str
  concat [] = []
  concat (s ∷ more) = s ++ concat more

  unfoldable pub dump : Config → Str
  unfolding dump_fields line route_line decimal
  dump c =
      codes "static config (boot-time only):\n"
      ++ concat (map (line c.provenance) (dump_fields c.static))
      ++ codes "dynamic routes (file): "
      ++ decimal (length c.file_routes)
      ++ codes "\n"
      ++ concat (map route_line c.file_routes)
