-- ===== src/Acme/Dns/Provider.antt =====
-- `DnsProvider` of src/acme.rs, and the choice among its implementations in `AcmeManager::new`.
use archetype_proxy_server.Prelude.{Option, Result, ok, ok_or, map_ok}
use archetype_proxy_server.Text.{Str}
use archetype_proxy_server.Config.Kinds.{DnsProviderKind}
use archetype_proxy_server.Config.Settings.{AcmeDnsConfig}
use archetype_proxy_server.Config.Tls.{resolve_cf_token}
use archetype_proxy_server.Acme.{AcmeError, dns, no_token}
use archetype_proxy_server.Acme.Dns.{
  DnsWorld, DnsState, DnsStep, ManualDnsProvider, manual_publish, manual_cleanup,
}
use archetype_proxy_server.Acme.Dns.Cloudflare.{
  CloudflareDnsProvider, with_base_url, cloudflare_api_base, cloudflare_publish, cloudflare_cleanup,
}

-- `dyn DnsProvider`
pub data DnsProvider : Type 0 where
  manual : ManualDnsProvider → DnsProvider
  cloudflare : CloudflareDnsProvider → DnsProvider

-- The provider that the settings name; `var` is `std::env::var(..).ok()`.
unfoldable pub select_dns : (var : Str → Option Str) → AcmeDnsConfig → Result AcmeError DnsProvider
unfolding with_base_url resolve_cf_token
select_dns var cfg = elim cfg.provider [
  | DnsProviderKind.manual ↦ ok (
      manual (record {
        hook_command = cfg.hook_command;
        cleanup_command = cfg.cleanup_command;
        propagation = cfg.propagation_secs;
      }))
  | DnsProviderKind.cloudflare ↦
      map_ok
        (λ token.
          cloudflare (with_base_url token cfg.zone_id cfg.propagation_secs cloudflare_api_base))
        (ok_or (resolve_cf_token var cfg) (dns no_token))
]

module _ (w : DnsWorld) where
  unfoldable pub publish : DnsProvider → (domain record_name value : Str) → DnsStep (Unit {0})
  unfolding manual_publish cloudflare_publish
  publish (manual p) domain record_name value = manual_publish w p domain record_name value
  publish (cloudflare p) domain record_name value = cloudflare_publish w p domain record_name value

  unfoldable pub cleanup : DnsProvider → (domain record_name value : Str) → DnsState → DnsState
  unfolding manual_cleanup cloudflare_cleanup
  cleanup (manual p) domain record_name value d = manual_cleanup w p domain record_name value d
  cleanup (cloudflare p) domain record_name value d =
      cloudflare_cleanup w p domain record_name value d
