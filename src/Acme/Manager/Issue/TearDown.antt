-- ===== src/Acme/Manager/Issue/TearDown.antt =====
-- What an order leaves of the responses that it published.
use archetype_proxy_server.Text.{Str}
use archetype_proxy_server.Ordered.{BTreeMap, IsOrdered}
use archetype_proxy_server.Ordered.Keys.{str_ord}
use archetype_proxy_server.Ordered.Cover.{Covers}
use archetype_proxy_server.Tls.{CertifiedKey}
use archetype_proxy_server.Acme.{Http01Tokens}
use archetype_proxy_server.Acme.Dns.{DnsWorld}
use archetype_proxy_server.Acme.Cert.{Pki}
use archetype_proxy_server.Acme.Cache.{Files}
use archetype_proxy_server.Acme.Manager.{Authority, Manager, Shared, Active}

module _ {S D : Type 0} (a : Authority) (pki : Pki S) (fs : Files D) (net : DnsWorld) where
  open a use {Account}

  -- The responses that are being served: those that were noted for the teardown, at most.
  pub record IsTracked (active : Active) (s : Shared S D) : Type 0 where
    pub tokens : Covers active.http s.http_tokens
    pub challenges : Covers active.alpn s.resolver.challenges
    pub tokens_ordered : IsOrdered s.http_tokens
    pub challenges_ordered : IsOrdered s.resolver.challenges

  -- The responses that are being served.
  abbrev pub in_flight : Shared S D → Http01Tokens × BTreeMap Str (CertifiedKey S)
  in_flight s = (s.http_tokens, s.resolver.challenges)
