-- ===== src/Config/Tls.antt =====
-- `TlsConfig::validate`, which picks the one certificate source, and the token of the Cloudflare
-- provider, in src/config.rs.
pub mod Modes
use archetype_proxy_server.Prelude.{
  ℕ, Bool, true, false, ◌&&◌, ◌||◌, not, Option, none, some, List, [], ◌∷◌, Result, ok, err,
  is_some, is_some_and, is_empty, any, if◌then◌else◌, and_then,
}
use archetype_proxy_server.Text.{Str, codes, starts_with}
use archetype_proxy_server.Config.Kinds.{AcmeChallenge, DnsProviderKind}
use archetype_proxy_server.Config.Settings.{AcmeDnsConfig, AcmeConfig, TlsConfig, TlsMode}

-- The messages of `validate`.
pub data TlsReason : Type 0 where
  both_sources : TlsReason
  no_source : TlsReason
  key_path_missing : TlsReason
  cert_path_missing : TlsReason
  no_domains : TlsReason
  wildcard_without_dns01 : AcmeChallenge → TlsReason
  unreachable : TlsReason

abbrev is_dns01 : AcmeChallenge → Bool
is_dns01 AcmeChallenge.dns01 = true
is_dns01 _ = false

abbrev pub is_wildcard : Str → Bool
is_wildcard d = starts_with d (codes "*.")

-- The pair of paths, where at least one is set.
abbrev static_mode : Option Str → Option Str → Result TlsReason TlsMode
static_mode (some cert) (some key) = ok (TlsMode.static_files cert key)
static_mode (some cert) none = err key_path_missing
static_mode none (some key) = err cert_path_missing
static_mode none none = err unreachable

abbrev acme_mode : Option AcmeConfig → Result TlsReason TlsMode
acme_mode none = err unreachable
acme_mode (some a) =
    if is_empty a.domains
    then err no_domains
    else if not (is_dns01 a.challenge) && any is_wildcard a.domains
    then err (wildcard_without_dns01 a.challenge)
    else ok (TlsMode.acme a)

abbrev select_mode : Bool → Bool → TlsConfig → Result TlsReason TlsMode
select_mode true true t = err both_sources
select_mode false false t = err no_source
select_mode false true t = static_mode t.cert_path t.key_path
select_mode true false t = acme_mode t.acme

unfoldable pub validate : TlsConfig → Result TlsReason TlsMode
unfolding starts_with
validate t =
    let acme_enabled = is_some_and (λ (a : AcmeConfig). a.enabled) t.acme in
    let has_static = is_some t.cert_path || is_some t.key_path in
    select_mode acme_enabled has_static t

-- `AcmeDnsConfig::default` and `default_dns_propagation_secs`
abbrev pub default_dns_propagation_secs : ℕ
default_dns_propagation_secs = 60

abbrev pub default_dns_config : AcmeDnsConfig
default_dns_config = record {
  provider = DnsProviderKind.manual;
  hook_command = none;
  cleanup_command = none;
  api_token = none;
  api_token_env = none;
  zone_id = none;
  propagation_secs = default_dns_propagation_secs;
}

-- `.filter(|t| !t.is_empty())`
abbrev pub non_empty : Option Str → Option Str
non_empty none = none
non_empty (some t) = if is_empty t then none else some t

abbrev inline_or : Option Str → Option Str → Option Str
inline_or (some t) later = some t
inline_or none later = later

-- `AcmeDnsConfig::resolve_cf_token`; `var` is `std::env::var(..).ok()`.
unfoldable pub resolve_cf_token : (var : Str → Option Str) → AcmeDnsConfig → Option Str
resolve_cf_token var d =
    inline_or (non_empty d.api_token) (and_then d.api_token_env (λ name. non_empty (var name)))
