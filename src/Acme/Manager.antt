-- ===== src/Acme/Manager.antt =====
-- `AcmeManager` of src/acme.rs: its parts, the state that it shares, and what the authority answers
-- during an order, which is given. The lock lets one order run at a time, so an order is one
-- operation.
pub mod Issue
pub mod Renewal
use archetype_proxy_server.Prelude.{
  ℕ, Bool, true, false, Option, List, [], Result, ok, err, ok_or, ensure, ◌>>=◌, ◌>>◌, map_ok,
}
use archetype_proxy_server.Text.{Str}
use archetype_proxy_server.Steps.{Step}
use archetype_proxy_server.Config.Settings.{AcmeConfig}
use archetype_proxy_server.Tls.{AcmeResolver}
use archetype_proxy_server.Acme.{
  AcmeError, acme, order, AuthorizationStatus, OrderStatus, ChallengeType, KeyAuthorization,
  Http01Tokens,
}
use archetype_proxy_server.Acme.Dns.{DnsState}
use archetype_proxy_server.Acme.Dns.Provider.{DnsProvider, select_dns}
use archetype_proxy_server.Acme.Cert.{IssuedCert}

-- A challenge that the authority offers, and whether it takes the word that it is ready.
pub record Challenge : Type 0 where
  pub token : Str
  pub key_authorization : KeyAuthorization
  pub set_ready : Bool

-- One authorization, with the key pair that is generated in case it is validated by TLS-ALPN-01.
pub record Authorization : Type 0 where
  pub status : AuthorizationStatus
  pub domain : Str
  pub challenge : ChallengeType → Option Challenge
  pub key_pair : Option (List ℕ)

-- The answers to one order; `none` stands for the error of a call.
pub record Order : Type 0 where
  pub authorizations : List (Option Authorization)
  pub poll_ready : Option OrderStatus
  pub finalize : Option Str
  pub poll_certificate : Option Str

-- `instant_acme`, as it answers during one call of `issue`.
pub record Authority : Type 1 where
  pub Account : Type 0
  pub AccountCredentials : Type 0
  pub parse : Str → Option AccountCredentials
  pub print : AccountCredentials → Option Str
  pub builder : Bool
  pub from_credentials : AccountCredentials → Option Account
  pub create : (contact : List Str) → (directory : Str) → Option (Account × AccountCredentials)
  pub new_order : Account → (domains : List Str) → Option Order
  pub staging_url : Str
  pub production_url : Str

pub record Manager : Type 0 where
  pub cfg : AcmeConfig
  pub dns : DnsProvider
  pub cache : Option Str

-- `AcmeManager::new`; the resolver and the tokens are in the shared state.
unfoldable pub new : (var : Str → Option Str) → AcmeConfig → Result AcmeError Manager
unfolding select_dns
new var cfg = do
  dns ← select_dns var cfg.dns
  ok (record { cfg = cfg; dns = dns; cache = cfg.cache_dir })

abbrev pub is_ready : OrderStatus → Bool
is_ready OrderStatus.ready = true
is_ready _ = false

-- `finalize_and_fetch`
unfoldable pub finalize_and_fetch : Order → Result AcmeError IssuedCert
finalize_and_fetch o = do
  status ← ok_or o.poll_ready acme
  ensure (is_ready status) (order status)
  key_pem ← ok_or o.finalize acme
  cert_pem ← ok_or o.poll_certificate acme
  ok (record { cert_pem = cert_pem; key_pem = key_pem })

-- What the manager shares with the listeners and keeps outside itself.
pub record Shared (S D : Type 0) : Type 0 where
  pub resolver : AcmeResolver S
  pub http_tokens : Http01Tokens
  pub dns_state : DnsState
  pub disk : D

-- `active_http`, `active_alpn` and `active_dns`
pub record Active : Type 0 where
  pub http : List Str
  pub alpn : List Str
  pub dns : List (Str × Str × Str)

abbrev pub inactive : Active
inactive = record { http = []; alpn = []; dns = [] }

module _ {S D : Type 0} where
  abbrev pub with_resolver : (AcmeResolver S → AcmeResolver S) → Shared S D → Shared S D
  with_resolver f s = record {
    resolver = f s.resolver;
    http_tokens = s.http_tokens;
    dns_state = s.dns_state;
    disk = s.disk;
  }

  abbrev pub with_tokens : (Http01Tokens → Http01Tokens) → Shared S D → Shared S D
  with_tokens f s = record {
    resolver = s.resolver;
    http_tokens = f s.http_tokens;
    dns_state = s.dns_state;
    disk = s.disk;
  }

  abbrev pub with_dns : Shared S D → DnsState → Shared S D
  with_dns s dns_state = record {
    resolver = s.resolver;
    http_tokens = s.http_tokens;
    dns_state = dns_state;
    disk = s.disk;
  }

  abbrev pub with_disk : Shared S D → D → Shared S D
  with_disk s disk = record {
    resolver = s.resolver;
    http_tokens = s.http_tokens;
    dns_state = s.dns_state;
    disk = disk;
  }

  -- A step of the DNS provider, and one on the files.
  abbrev pub on_dns : {A : Type 0} → Step DnsState AcmeError A → Step (Shared S D) AcmeError A
  on_dns step s = let (dns_state, r) = step s.dns_state in (with_dns s dns_state, r)

  abbrev pub on_disk : {A : Type 0} → Step D AcmeError A → Step (Shared S D) AcmeError A
  on_disk step s = let (disk, r) = step s.disk in (with_disk s disk, r)
